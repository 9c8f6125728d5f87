-- ===== src/Lib.antt =====
-- The core of grok2api: the persistent accounts of the control plane and their repository, the in-memory
-- table from which the data plane serves requests, the models that requests name, the proxies that they
-- go through, and the sieve for tool calls in a model's text.
--
-- The parts and their files:
--   app/control/account/enums.py, models.py: Account/Models (QuotaWindow, AccountQuotaSet and
--     AccountRecord are records; to_dict and from_dict go through association lists).
--   app/control/account/quota_defaults.py: Account/Quota, function by function.
--   app/control/account/state_machine.py: Account/StateMachine. Events has the policy and the
--     feedback, Effects the quota and counter part of apply_feedback, Status the effective status and
--     the transitions, Apply the whole of apply_feedback and clear_failures.
--   app/dataplane/account/table.py, app/dataplane/shared/enums.py: Runtime/Slot and Runtime/Table. The
--     parallel columns are a list of slots, mode_available and tag_idx are maps from keys to sets, with
--     the keys in the order in which they were made.
--   app/dataplane/account/feedback.py: Runtime/Feedback, one function each.
--   app/dataplane/account/selector.py: Runtime/Selector, both strategies. A strategy returns the table
--     too, since the quota strategy resets windows while it selects.
--   app/dataplane/account/__init__.py, lease.py: Runtime/Directory (reserve, reserve_any, release),
--     Runtime/Directory/Feedback (feedback) and Runtime/Directory/Load (bootstrap, sync_if_changed). A
--     method is one step: the first four write under the directory's lock. Runtime/Directory/Sessions
--     has the sequences of calls.
--   app/dataplane/account/sync.py: Runtime/Sync. bootstrap takes the snapshot, and apply_changes the
--     change sets that the repository's scan_changes returns in turn.
--   app/control/account/models.py (validators): Account/Normalize, on native texts.
--   app/control/account/backends/local.py, commands.py: Store has the two tables and the conversion of a
--     row, Store/Commands the commands, Store/Rows the SQL statements on a list of rows, Store/Patch
--     _patch_sync, Store/Mutations the transactions that write, Store/Queries those that read.
--     Store/Sessions has the sequences of transactions.
--   app/control/account/refresh.py: Refresh (what is written for an account, as patches of the repository).
--   app/dataplane/reverse/protocol/xai_usage.py and feedback_kind_for_error of
--     app/control/account/invalid_credentials.py: Reverse. A failed request comes back to the proxy directory
--     as feedback (Reverse/Clearance).
--   app/control/model/enums.py, spec.py, registry.py: Catalog/Spec and Catalog/Registry.
--   app/products/_account_selection.py: Catalog/Selection.
--   app/control/proxy/models.py, feedback.py: Proxy. app/control/proxy/__init__.py: Proxy/Directory (the
--     state, the choice of a proxy, feedback), Proxy/Load, Proxy/Refresh (refresh_clearance_safe) and
--     Proxy/Flights, where _get_or_build_bundle is a step relation on any number of coroutines;
--     Proxy/Bundles has the dictionaries under pairs.
--   app/products/openai/_tool_sieve.py: Tools/Sieve, on lists of code points.
-- The synchronisation of the runtime table reads the change sets that the repository's scan_changes makes.
-- A request for a model reserves through Catalog/Selection.
-- Account and Runtime share the feedback kinds. A request reserves a lease from the directory, and its
-- outcome comes back as feedback: by token to the directory, and by record to the state machine.
--
-- Conventions: a call that may raise returns a Result; a read past the end of a column is an IndexError.
-- The clock, the registered strategy, the configuration values and the choice of random.choice are
-- arguments. The floats of the health column are a parameter (Prelude/Float), and so are Python's
-- int(text), int(float) and str(int) (Account/StateMachine/Status). Integers are unbounded as in Python; the caps
-- that the source applies to 16-bit columns are written out. Loops are structural recursion on lists,
-- so that no fuel is needed. A Python set is a list of its members, and the order in which Python walks
-- a set is the order of that list.
--
-- SQLite runs a transaction that writes as a whole, and rolls it back where the code raises; a query that
-- reads the revision first and the rows afterwards takes the two apart (Store/Queries). asyncio runs a section
-- under the directory's lock as a whole, since none of them waits. Each call has its own readings of the
-- clock, settings and random choice, and so has each record of a synchronisation its own time.
--
-- Not modelled: an array column's refusal of a number outside its machine range; the float32 rounding
-- of the health column; the interleaving of a synchronisation or of a scheduled refresh with other
-- calls; feedback by token on a mode below 0, which no caller gives; numbers of a stored quota that are no
-- integers; list_accounts; files, connections and the SQL and Redis repositories; the providers of
-- clearance, the URLs and the network; the requests to the usage API, whose answers are arguments; the parser of a block of tool calls, the HTTP products and the
-- transports.
--
-- Tests holds runs of the models at concrete values.
mod Prelude
pub mod Account
pub mod Runtime
pub mod Catalog
pub mod Store
pub mod Proxy
pub mod Refresh
pub mod Reverse
pub mod Tools
mod Tests
