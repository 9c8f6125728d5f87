-- ===== src/Tests/StoreRuns.antt =====
-- The theorems on the repository and on the validators at concrete stores and tokens.
use mathlib.Core.Option.{map}
use mathlib.Core.List.{Memᴰ}
use grok2apinew.Prelude.{
  suc, ◌≡◌, ◌<◌, refl, true, false, Option, none, some, List, [], ◌∷◌, arith, String,
}
use grok2apinew.Prelude.Int.{pos}
use grok2apinew.Prelude.Result.{ok, ◌>>=◌}
use grok2apinew.Account.Models.{active, AccountRecord, AccountQuotaSet, window_to_dict}
use grok2apinew.Account.Quota.{default_quota_set}
use grok2apinew.Account.Normalize.{
  normalize_token, normalize_pool, normalize_tags, after_prefix, sso_prefix,
}
use grok2apinew.Account.Normalize.Plain.{normalize_token-normalize_token}
use grok2apinew.Runtime.Sync.{AccountChangeSet}
use grok2apinew.Store.{Row, Store, init, row_to_record, record_to_row}
use grok2apinew.Store.Commands.{AccountUpsert}
use grok2apinew.Store.Rows.{find_row}
use grok2apinew.Store.Mutations.{upsert_accounts, delete_accounts, valid_token}
use grok2apinew.Store.Queries.{scan_changes}
use grok2apinew.Store.Revisions.{IsWellFormed}
use grok2apinew.Store.Sessions.{starts, commits, upserts, Reachable-IsWellFormed}
use grok2apinew.Store.Scan.{IsReported, scan_changes-IsReported}
use grok2apinew.Store.Columns.{row_to_record-record_to_row}
use grok2apinew.Store.Accounts.{
  after_delete, find_row-delete_accounts, IsActivated, upsert_accounts-IsActivated,
}
use grok2apinew.Tests.Sample.{account}

abbrev item_a : AccountUpsert
item_a = record { token = " sso=a "; pool = "basic"; tags = []; ext = [] }

-- A store with one account.
abbrev one_upserted : Store
one_upserted = (upsert_accounts (pos 5) (item_a ∷ []) init).1

Reachable-IsWellFormed_example : IsWellFormed one_upserted
Reachable-IsWellFormed_example =
    Reachable-IsWellFormed one_upserted (commits starts (upserts (pos 5) (item_a ∷ [])))

normalizes_a : normalize_token " sso=a " ≡ some "a"
unfolding grok2apinew.Account.Normalize.normalize_token grok2apinew.Account.Normalize.translate
    grok2apinew.Account.Normalize.filter_chars grok2apinew.Account.Normalize.is_space
    grok2apinew.Account.Normalize.is_ascii grok2apinew.Account.Normalize.after_prefix
    grok2apinew.Account.Normalize.without_sso grok2apinew.Account.Normalize.nonempty_text
    grok2apinew.Account.Normalize.lstrip grok2apinew.Account.Normalize.rstrip
    grok2apinew.Account.Normalize.lower grok2apinew.Account.Normalize.is_part
    grok2apinew.Account.Normalize.normalize_pool grok2apinew.Account.Normalize.has_text
    grok2apinew.Account.Normalize.normalize_tags grok2apinew.Prelude.IntSet.mem
normalizes_a = refl

no_prefix : after_prefix sso_prefix "a" ≡ none
unfolding grok2apinew.Account.Normalize.normalize_token grok2apinew.Account.Normalize.translate
    grok2apinew.Account.Normalize.filter_chars grok2apinew.Account.Normalize.is_space
    grok2apinew.Account.Normalize.is_ascii grok2apinew.Account.Normalize.after_prefix
    grok2apinew.Account.Normalize.without_sso grok2apinew.Account.Normalize.nonempty_text
    grok2apinew.Account.Normalize.lstrip grok2apinew.Account.Normalize.rstrip
    grok2apinew.Account.Normalize.lower grok2apinew.Account.Normalize.is_part
    grok2apinew.Account.Normalize.normalize_pool grok2apinew.Account.Normalize.has_text
    grok2apinew.Account.Normalize.normalize_tags grok2apinew.Prelude.IntSet.mem
no_prefix = refl

normalize_token-normalize_token_example : normalize_token "a" ≡ some "a"
normalize_token-normalize_token_example =
    normalize_token-normalize_token " sso=a " "a" normalizes_a no_prefix

valid_a : valid_token item_a ≡ some "a"
unfolding grok2apinew.Account.Normalize.normalize_token grok2apinew.Account.Normalize.translate
    grok2apinew.Account.Normalize.filter_chars grok2apinew.Account.Normalize.is_space
    grok2apinew.Account.Normalize.is_ascii grok2apinew.Account.Normalize.after_prefix
    grok2apinew.Account.Normalize.without_sso grok2apinew.Account.Normalize.nonempty_text
    grok2apinew.Account.Normalize.lstrip grok2apinew.Account.Normalize.rstrip
    grok2apinew.Account.Normalize.lower grok2apinew.Account.Normalize.is_part
    grok2apinew.Account.Normalize.normalize_pool grok2apinew.Account.Normalize.has_text
    grok2apinew.Account.Normalize.normalize_tags grok2apinew.Prelude.IntSet.mem
    grok2apinew.Store.Mutations.valid_token
valid_a = refl

upsert_accounts-IsActivated_example : IsActivated 1 (find_row "a" one_upserted.rows)
upsert_accounts-IsActivated_example =
    upsert_accounts-IsActivated (pos 5) (item_a ∷ []) init item_a "a" (Memᴰ.head refl) valid_a

find_row-delete_accounts_example :
    find_row "a" (delete_accounts (pos 9) ("b" ∷ "a" ∷ []) one_upserted).1.rows
    ≡ map
        (after_delete (pos 9) (suc one_upserted.revision) "a" ("b" ∷ "a" ∷ []))
        (find_row "a" one_upserted.rows)
find_row-delete_accounts_example =
    find_row-delete_accounts (pos 9) "a" ("b" ∷ "a" ∷ []) one_upserted

abbrev row_a : Row
row_a = record {
  token = "t";
  pool = "basic";
  status = active;
  created_at = pos 0;
  updated_at = pos 0;
  tags = [];
  quota_auto = [];
  quota_fast = [];
  quota_expert = [];
  quota_heavy = [];
  quota_grok_4_3 = [];
  usage_use_count = 0;
  usage_fail_count = 0;
  usage_sync_count = 0;
  last_use_at = none;
  last_fail_at = none;
  last_fail_reason = none;
  last_sync_at = none;
  last_clear_at = none;
  state_reason = none;
  deleted_at = none;
  ext = [];
  revision = 1;
}

abbrev store_a : Store
store_a = record { rows = row_a ∷ []; revision = 1 }

abbrev changes_a : AccountChangeSet
changes_a = record {
  revision = 1;
  items =
      record (account active) {
        quota = ("auto", []) ∷ ("fast", []) ∷ ("expert", []) ∷ [];
        revision = 1;
      }
      ∷ [];
  deleted_tokens = [];
  has_more = false;
}

scans_a : scan_changes 1 store_a 0 5 ≡ ok changes_a
unfolding grok2apinew.Account.Normalize.normalize_token grok2apinew.Account.Normalize.translate
    grok2apinew.Account.Normalize.filter_chars grok2apinew.Account.Normalize.is_space
    grok2apinew.Account.Normalize.is_ascii grok2apinew.Account.Normalize.after_prefix
    grok2apinew.Account.Normalize.without_sso grok2apinew.Account.Normalize.nonempty_text
    grok2apinew.Account.Normalize.lstrip grok2apinew.Account.Normalize.rstrip
    grok2apinew.Account.Normalize.lower grok2apinew.Account.Normalize.is_part
    grok2apinew.Account.Normalize.normalize_pool grok2apinew.Account.Normalize.has_text
    grok2apinew.Account.Normalize.normalize_tags grok2apinew.Prelude.IntSet.mem
    grok2apinew.Store.Queries.scan_changes grok2apinew.Store.Queries.changed_since
    grok2apinew.Store.Queries.select_where grok2apinew.Store.Queries.put_by_revision
    grok2apinew.Store.Queries.order_by_revision grok2apinew.Store.Queries.take
    grok2apinew.Store.Queries.split_changes grok2apinew.Store.row_to_record
    grok2apinew.Store.quota_of_row grok2apinew.Account.Models.is_deleted
scans_a = refl

scan_changes-IsReported_example : IsReported (changes_a.items, changes_a.deleted_tokens) row_a
scan_changes-IsReported_example =
    scan_changes-IsReported 1 store_a 0 5 changes_a row_a scans_a refl (Memᴰ.head refl)
      (omega arith)

reads_token : normalize_token "t" ≡ some "t"
unfolding grok2apinew.Account.Normalize.normalize_token grok2apinew.Account.Normalize.translate
    grok2apinew.Account.Normalize.filter_chars grok2apinew.Account.Normalize.is_space
    grok2apinew.Account.Normalize.is_ascii grok2apinew.Account.Normalize.after_prefix
    grok2apinew.Account.Normalize.without_sso grok2apinew.Account.Normalize.nonempty_text
    grok2apinew.Account.Normalize.lstrip grok2apinew.Account.Normalize.rstrip
    grok2apinew.Account.Normalize.lower grok2apinew.Account.Normalize.is_part
    grok2apinew.Account.Normalize.normalize_pool grok2apinew.Account.Normalize.has_text
    grok2apinew.Account.Normalize.normalize_tags grok2apinew.Prelude.IntSet.mem
reads_token = refl

reads_pool : normalize_pool "basic" ≡ some "basic"
unfolding grok2apinew.Account.Normalize.normalize_token grok2apinew.Account.Normalize.translate
    grok2apinew.Account.Normalize.filter_chars grok2apinew.Account.Normalize.is_space
    grok2apinew.Account.Normalize.is_ascii grok2apinew.Account.Normalize.after_prefix
    grok2apinew.Account.Normalize.without_sso grok2apinew.Account.Normalize.nonempty_text
    grok2apinew.Account.Normalize.lstrip grok2apinew.Account.Normalize.rstrip
    grok2apinew.Account.Normalize.lower grok2apinew.Account.Normalize.is_part
    grok2apinew.Account.Normalize.normalize_pool grok2apinew.Account.Normalize.has_text
    grok2apinew.Account.Normalize.normalize_tags grok2apinew.Prelude.IntSet.mem
reads_pool = refl

reads_tags : ◌≡◌ {A = List String} (normalize_tags []) []
unfolding grok2apinew.Account.Normalize.normalize_token grok2apinew.Account.Normalize.translate
    grok2apinew.Account.Normalize.filter_chars grok2apinew.Account.Normalize.is_space
    grok2apinew.Account.Normalize.is_ascii grok2apinew.Account.Normalize.after_prefix
    grok2apinew.Account.Normalize.without_sso grok2apinew.Account.Normalize.nonempty_text
    grok2apinew.Account.Normalize.lstrip grok2apinew.Account.Normalize.rstrip
    grok2apinew.Account.Normalize.lower grok2apinew.Account.Normalize.is_part
    grok2apinew.Account.Normalize.normalize_pool grok2apinew.Account.Normalize.has_text
    grok2apinew.Account.Normalize.normalize_tags grok2apinew.Prelude.IntSet.mem
reads_tags = refl

row_to_record-record_to_row_example :
    (record_to_row (account active) 7 >>= row_to_record)
    ≡ ok (record (account active) { revision = 7 })
row_to_record-record_to_row_example =
    row_to_record-record_to_row (account active) (default_quota_set "basic") 7 reads_token
      reads_pool reads_tags refl

-- A text of white space only is no token.
abbrev blank : AccountUpsert
blank = record { token = "  "; pool = "basic"; tags = []; ext = [] }

blank_is_refused : valid_token blank ≡ none
unfolding grok2apinew.Account.Normalize.normalize_token grok2apinew.Account.Normalize.translate
    grok2apinew.Account.Normalize.filter_chars grok2apinew.Account.Normalize.is_space
    grok2apinew.Account.Normalize.is_ascii grok2apinew.Account.Normalize.after_prefix
    grok2apinew.Account.Normalize.without_sso grok2apinew.Account.Normalize.nonempty_text
    grok2apinew.Account.Normalize.lstrip grok2apinew.Account.Normalize.rstrip
    grok2apinew.Account.Normalize.lower grok2apinew.Account.Normalize.is_part
    grok2apinew.Account.Normalize.normalize_pool grok2apinew.Account.Normalize.has_text
    grok2apinew.Account.Normalize.normalize_tags grok2apinew.Prelude.IntSet.mem
    grok2apinew.Store.Mutations.valid_token
blank_is_refused = refl
