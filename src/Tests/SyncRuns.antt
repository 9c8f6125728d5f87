-- ===== src/Tests/SyncRuns.antt =====
-- The theorems on the synchronisation at a concrete snapshot and change set.
use grok2apinew.Prelude.{ℕ, ◌≡◌, refl, true, false, [], ◌∷◌}
use grok2apinew.Prelude.Int.{ℤ, pos, negsuc}
use grok2apinew.Prelude.Result.{ok}
use grok2apinew.Account.Models.{active, AccountRecord, quota_set}
use grok2apinew.Account.Models.RoundTrip.{from_dict-to_dict}
use grok2apinew.Account.Quota.{default_quota_set}
use grok2apinew.Runtime.Slot.{SlotArgs, all_mode_ids}
use grok2apinew.Runtime.Table.{Table, make_empty_table, remove_modes}
use grok2apinew.Runtime.Table.Writers.{IsConsistent, appended, append_slot-eq}
use grok2apinew.Runtime.Sync.{
  AccountChangeSet, RuntimeSnapshot, bootstrap, apply_changes, mark_deleted, record_to_slot_args,
}
use grok2apinew.Runtime.Sync.Consistent.{apply_changes-IsConsistent}
use grok2apinew.Prelude.{none, some}
use grok2apinew.Runtime.Directory.{AccountDirectory}
use grok2apinew.Runtime.Directory.Outcome.{IsSound}
use grok2apinew.Runtime.Directory.Load.{load, sync_if_changed}
use grok2apinew.Runtime.Directory.Sessions.{starts, calls, loads, syncs, Reachable-IsSound}
use grok2apinew.Tests.Sample.{
  ints, conversions, account, basic_args, counts, slot_a, two_accounts, two_accounts-IsConsistent,
}

abbrev snapshot : RuntimeSnapshot
snapshot = record { revision = 5; items = account active ∷ [] }

-- One second, at every reading of the clock.
abbrev at_second : ℕ → ℤ
at_second n = pos 1_000

abbrev always : ℕ → ℕ → ℤ
always m n = pos 1_000

-- The slot of a fresh basic account.
abbrev fresh_args : SlotArgs ℤ
fresh_args = record (basic_args (pos 30)) {
  quota = record (counts (pos 30)) { heavy = negsuc 0; grok_4_3 = negsuc 0 };
  health = pos 10;
}

stored : quota_set (account active) ≡ ok (default_quota_set "basic")
unfolding quota_set
stored = from_dict-to_dict (default_quota_set "basic")

reads : record_to_slot_args ints conversions (pos 1_000) (account active) ≡ ok fresh_args
unfolding record_to_slot_args default_quota_set
reads = rw stored refl

abbrev loaded : Table ℤ
loaded = record (appended make_empty_table "t" fresh_args) { revision = 5 }

boots : bootstrap ints conversions at_second snapshot ≡ ok loaded
unfolding bootstrap grok2apinew.Account.Models.is_deleted grok2apinew.Runtime.Sync.load_each
    make_empty_table grok2apinew.Runtime.Table.new_slot grok2apinew.Runtime.Table.add_tags
boots = rw (reads, append_slot-eq) refl

-- The first account is deleted.
abbrev deletion : AccountChangeSet
deletion = record { revision = 9; items = []; deleted_tokens = "a" ∷ []; has_more = false }

abbrev without_a : Table ℤ
without_a =
    record (mark_deleted
      (record two_accounts {
        mode_available = remove_modes all_mode_ids 0 0 two_accounts.mode_available;
      })
      0 slot_a) { revision = 9 }

deletes :
    apply_changes ints conversions always two_accounts (deletion ∷ []) false ≡ ok (without_a, true)
unfolding apply_changes make_empty_table grok2apinew.Runtime.Sync.apply_changeset
    grok2apinew.Runtime.Sync.delete_each grok2apinew.Runtime.Sync.delete_slot
    grok2apinew.Runtime.Sync.apply_items grok2apinew.Runtime.Table.new_slot
deletes = refl

apply_changes-IsConsistent_example : IsConsistent without_a
apply_changes-IsConsistent_example =
    apply_changes-IsConsistent ints conversions always (deletion ∷ []) two_accounts false
      (without_a, true) deletes two_accounts-IsConsistent

-- A new directory is bootstrapped.
abbrev new_directory : AccountDirectory ℤ
new_directory = record { table = none; counter = 0 }

abbrev booted : AccountDirectory ℤ
booted = record { table = some loaded; counter = 0 }

loads_snapshot : load ints conversions at_second new_directory snapshot ≡ ok booted
unfolding load
loads_snapshot = rw boots refl

-- There is nothing new three seconds later.
abbrev later : ℕ → ℕ → ℤ
later m n = pos 4_000

syncs_nothing : sync_if_changed ints conversions later booted [] ≡ ok (booted, false)
unfolding sync_if_changed apply_changes
syncs_nothing = refl

Reachable-IsSound_example : IsSound booted
Reachable-IsSound_example = Reachable-IsSound ints conversions booted (
    calls (calls (starts 0) (loads at_second snapshot loads_snapshot))
      (syncs {r = (booted, false)} later [] syncs_nothing))
