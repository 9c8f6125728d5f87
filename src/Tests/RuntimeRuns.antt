-- ===== src/Tests/RuntimeRuns.antt =====
-- The theorems on the runtime table and the directory at concrete tables.
use grok2apinew.Prelude.{
  ℕ, ◌≡◌, refl, true, false, Option, none, some, List, [], ◌∷◌, arith, length, get_elem?, leb,
}
use grok2apinew.Prelude.Int.{ℤ, pos, ltb_ℤ}
use grok2apinew.Prelude.Result.{ok}
use grok2apinew.Prelude.IntSet.{mem}
use grok2apinew.Prelude.SetMap.{pair_eq, holds}
use grok2apinew.Account.Models.{success, unauthorized}
use grok2apinew.Runtime.Slot.{Slot, is_active, col, expired}
use grok2apinew.Runtime.Table.{Table, make_empty_table, append_slot, update_slot, write, new_slot}
use grok2apinew.Runtime.Table.Writers.{IsConsistent}
use grok2apinew.Runtime.Feedback.{bumped, adjusted, failed_at, used_at, status_changed}
use grok2apinew.Runtime.Selector.{
  Strategy, quota, random, quota_select, random_select, quota_score, prefer,
}
use grok2apinew.Runtime.Selector.Eligible.{is_excluded}
use grok2apinew.Runtime.Selector.Choice.{quota_select_eligible}
use grok2apinew.Runtime.Selector.Optimal.{quota_select_best}
use grok2apinew.Runtime.Selector.Random.{random_select_eligible}
use grok2apinew.Runtime.Directory.{
  AccountDirectory, AccountLease, grant, release, reserve, exclude_idxs,
}
use grok2apinew.Runtime.Directory.Feedback.{feedback, feedback_by_kind}
use grok2apinew.Runtime.Directory.Reserve.{IsGranted, reserve-IsGranted, release-grant}
use grok2apinew.Runtime.Directory.Outcome.{IsSound, feedback-IsSound}
use grok2apinew.Tests.Sample.{
  ints, ints-FloatLaws, slot_a, slot_b, two_accounts, two_accounts-IsConsistent, lease_b, leased,
  settings, directory,
}

-- The first slot.
first_slot : get_elem? two_accounts.slots 0 ≡ some slot_a
unfolding make_empty_table
first_slot = refl

second_slot : get_elem? two_accounts.slots 1 ≡ some slot_b
unfolding make_empty_table
second_slot = refl

-- The quota strategy takes the account with more queries left.
selected_by_quota : quota_select ints two_accounts 0 1 none none 100 ≡ ok (two_accounts, some 0)
unfolding grok2apinew.Prelude.IntSet.nonempty grok2apinew.Prelude.IntSet.mem
    grok2apinew.Prelude.IntSet.add grok2apinew.Prelude.IntSet.filter
    grok2apinew.Prelude.IntSet.difference grok2apinew.Prelude.IntSet.intersection
    grok2apinew.Prelude.IntSet.union grok2apinew.Prelude.IntSet.discard
    grok2apinew.Prelude.SetMap.add_at grok2apinew.Prelude.SetMap.has_key
    grok2apinew.Prelude.SetMap.touch grok2apinew.Prelude.SetMap.discard_at
    grok2apinew.Runtime.Table.add_modes grok2apinew.Runtime.Table.slot_at
    grok2apinew.Runtime.Table.make_empty_table grok2apinew.Runtime.Table.new_slot
    grok2apinew.Runtime.Table.write grok2apinew.Runtime.Table.remove_modes
    grok2apinew.Runtime.Slot.col grok2apinew.Runtime.Slot.set_col
    grok2apinew.Runtime.Selector.maybe_reset_windows grok2apinew.Runtime.Selector.reset_each
    grok2apinew.Runtime.Selector.window_is_over grok2apinew.Runtime.Selector.renewed
    grok2apinew.Runtime.Selector.keep_slots grok2apinew.Runtime.Selector.without
    grok2apinew.Runtime.Selector.best grok2apinew.Runtime.Selector.best_loop
    grok2apinew.Runtime.Selector.quota_score grok2apinew.Runtime.Selector.less_recent
    grok2apinew.Runtime.Selector.prefer grok2apinew.Runtime.Selector.quota_select
    grok2apinew.Prelude.Int.◌*ℤ◌ grok2apinew.Prelude.Int.◌+ℤ◌ grok2apinew.Prelude.Int.◌-ℤ◌
selected_by_quota = refl

quota_select_eligible_example :
    IsConsistent two_accounts
    × (is_excluded none 0 ≡ false)
    × ((s : Slot ℤ) × (get_elem? two_accounts.slots 0 ≡ some s)
        × (s.pool_id ≡ 0)
        × (is_active s.status_id ≡ true)
        × (ltb_ℤ (pos 0) (col s.quota 1) ≡ true))
quota_select_eligible_example =
    quota_select_eligible ints two_accounts two_accounts 0 1 0 100 none none
      two_accounts-IsConsistent selected_by_quota

second_indexed : holds two_accounts.mode_available (0, 1) 1 ≡ true
unfolding grok2apinew.Prelude.SetMap.holds grok2apinew.Prelude.IntSet.nonempty
    grok2apinew.Prelude.IntSet.mem grok2apinew.Prelude.IntSet.add grok2apinew.Prelude.IntSet.filter
    grok2apinew.Prelude.IntSet.difference grok2apinew.Prelude.IntSet.intersection
    grok2apinew.Prelude.IntSet.union grok2apinew.Prelude.IntSet.discard
    grok2apinew.Prelude.SetMap.add_at grok2apinew.Prelude.SetMap.has_key
    grok2apinew.Prelude.SetMap.touch grok2apinew.Prelude.SetMap.discard_at
    grok2apinew.Runtime.Table.add_modes grok2apinew.Runtime.Table.slot_at
    grok2apinew.Runtime.Table.make_empty_table grok2apinew.Runtime.Table.new_slot
    grok2apinew.Runtime.Table.write grok2apinew.Runtime.Table.remove_modes
    grok2apinew.Runtime.Slot.col grok2apinew.Runtime.Slot.set_col
second_indexed = refl

second_has_quota : ltb_ℤ (pos 0) (col slot_b.quota 1) ≡ true
unfolding col new_slot
second_has_quota = refl

quota_select_best_example :
    ltb_ℤ (quota_score ints 1 100 slot_a) (quota_score ints 1 100 slot_b) ≡ false
quota_select_best_example =
    quota_select_best ints ints-FloatLaws two_accounts two_accounts 0 1 0 1 100 none slot_a slot_b
      selected_by_quota first_slot second_indexed refl second_slot second_has_quota

-- With the first account excluded, the random strategy takes the second.
selected_at_random :
    random_select ints (λ n. 0) (pos 8) two_accounts 0 (some (0 ∷ [])) none 100
    ≡ ok (two_accounts, some 1)
unfolding grok2apinew.Prelude.IntSet.nonempty grok2apinew.Prelude.IntSet.mem
    grok2apinew.Prelude.IntSet.add grok2apinew.Prelude.IntSet.filter
    grok2apinew.Prelude.IntSet.difference grok2apinew.Prelude.IntSet.intersection
    grok2apinew.Prelude.IntSet.union grok2apinew.Prelude.IntSet.discard
    grok2apinew.Prelude.SetMap.add_at grok2apinew.Prelude.SetMap.has_key
    grok2apinew.Prelude.SetMap.touch grok2apinew.Prelude.SetMap.discard_at
    grok2apinew.Runtime.Table.add_modes grok2apinew.Runtime.Table.slot_at
    grok2apinew.Runtime.Table.make_empty_table grok2apinew.Runtime.Table.new_slot
    grok2apinew.Runtime.Table.write grok2apinew.Runtime.Table.remove_modes
    grok2apinew.Runtime.Slot.col grok2apinew.Runtime.Slot.set_col
    grok2apinew.Runtime.Selector.pool_union grok2apinew.Runtime.Selector.keep_slots
    grok2apinew.Runtime.Selector.without grok2apinew.Runtime.Selector.prefer
    grok2apinew.Runtime.Selector.random_select
selected_at_random = refl

random_select_eligible_example :
    (two_accounts ≡ two_accounts)
    × (is_excluded (some (0 ∷ [])) 1 ≡ false)
    × ((s : Slot ℤ) × (get_elem? two_accounts.slots 1 ≡ some s)
        × (s.pool_id ≡ 0)
        × (is_active s.status_id ≡ true)
        × (leb s.cooling_until_s 100 ≡ true)
        × (ltb_ℤ (pos s.inflight) (pos 8) ≡ true))
random_select_eligible_example =
    random_select_eligible ints (λ n. 0) (pos 8) two_accounts two_accounts 0 1 100 (some (0 ∷ []))
      none two_accounts-IsConsistent selected_at_random

second_preferred : mem 2 (prefer (some (2 ∷ 5 ∷ [])) (1 ∷ 2 ∷ 5 ∷ [])) ≡ true
unfolding prefer mem grok2apinew.Prelude.IntSet.filter grok2apinew.Prelude.IntSet.intersection
    grok2apinew.Prelude.IntSet.nonempty
second_preferred = refl

grants_b : grant directory (pos 1) 100 (two_accounts, some 1) ≡ ok (leased, some lease_b)
unfolding grok2apinew.Prelude.IntSet.nonempty grok2apinew.Prelude.IntSet.mem
    grok2apinew.Prelude.IntSet.add grok2apinew.Prelude.IntSet.filter
    grok2apinew.Prelude.IntSet.difference grok2apinew.Prelude.IntSet.intersection
    grok2apinew.Prelude.IntSet.union grok2apinew.Prelude.IntSet.discard
    grok2apinew.Prelude.SetMap.add_at grok2apinew.Prelude.SetMap.has_key
    grok2apinew.Prelude.SetMap.touch grok2apinew.Prelude.SetMap.discard_at
    grok2apinew.Runtime.Table.add_modes grok2apinew.Runtime.Table.slot_at
    grok2apinew.Runtime.Table.make_empty_table grok2apinew.Runtime.Table.new_slot
    grok2apinew.Runtime.Table.write grok2apinew.Runtime.Table.remove_modes
    grok2apinew.Runtime.Slot.col grok2apinew.Runtime.Slot.set_col
    grok2apinew.Runtime.Directory.exclude_idxs grok2apinew.Runtime.Directory.prefer_tag_idxs
    grok2apinew.Runtime.Directory.select grok2apinew.Runtime.Directory.try_pools
    grok2apinew.Runtime.Directory.grant grok2apinew.Runtime.Directory.reserve
    grok2apinew.Runtime.Feedback.modify grok2apinew.Runtime.Feedback.increment_inflight
    grok2apinew.Runtime.Feedback.update_last_use grok2apinew.Runtime.Table.get_token
    grok2apinew.Runtime.Table.get_pool_id
grants_b = refl

reserves_b :
    reserve ints (settings random) directory (1 ∷ 0 ∷ []) 1 ("a" ∷ []) [] 100
    ≡ ok (leased, some lease_b)
unfolding grok2apinew.Prelude.IntSet.nonempty grok2apinew.Prelude.IntSet.mem
    grok2apinew.Prelude.IntSet.add grok2apinew.Prelude.IntSet.filter
    grok2apinew.Prelude.IntSet.difference grok2apinew.Prelude.IntSet.intersection
    grok2apinew.Prelude.IntSet.union grok2apinew.Prelude.IntSet.discard
    grok2apinew.Prelude.SetMap.add_at grok2apinew.Prelude.SetMap.has_key
    grok2apinew.Prelude.SetMap.touch grok2apinew.Prelude.SetMap.discard_at
    grok2apinew.Runtime.Table.add_modes grok2apinew.Runtime.Table.slot_at
    grok2apinew.Runtime.Table.make_empty_table grok2apinew.Runtime.Table.new_slot
    grok2apinew.Runtime.Table.write grok2apinew.Runtime.Table.remove_modes
    grok2apinew.Runtime.Slot.col grok2apinew.Runtime.Slot.set_col
    grok2apinew.Runtime.Selector.pool_union grok2apinew.Runtime.Selector.keep_slots
    grok2apinew.Runtime.Selector.without grok2apinew.Runtime.Selector.prefer
    grok2apinew.Runtime.Selector.random_select grok2apinew.Runtime.Directory.exclude_idxs
    grok2apinew.Runtime.Directory.prefer_tag_idxs grok2apinew.Runtime.Directory.select
    grok2apinew.Runtime.Directory.try_pools grok2apinew.Runtime.Directory.grant
    grok2apinew.Runtime.Directory.reserve grok2apinew.Runtime.Feedback.modify
    grok2apinew.Runtime.Feedback.increment_inflight grok2apinew.Runtime.Feedback.update_last_use
    grok2apinew.Runtime.Table.get_token grok2apinew.Runtime.Table.get_pool_id
reserves_b = refl

reserve-IsGranted_example :
    (t' : Table ℤ) × (leased.table ≡ some t')
    × IsConsistent t'
    × IsGranted t' (1 ∷ 0 ∷ []) (exclude_idxs two_accounts.idx_by_token ("a" ∷ [])) lease_b 100
reserve-IsGranted_example =
    reserve-IsGranted ints (settings random) directory leased two_accounts (1 ∷ 0 ∷ []) 1 ("a" ∷ [])
      [] 100 lease_b refl two_accounts-IsConsistent reserves_b

release-grant_example :
    release leased lease_b
    ≡ ok (record leased { table = some (write two_accounts 1 (used_at 100 slot_b)) })
release-grant_example =
    release-grant directory leased lease_b (pos 1) 100 two_accounts 1 slot_b second_slot
      (unfold new_slot in ground arith) grants_b

-- The first account served a request.
abbrev served : AccountDirectory ℤ
served = record directory {
  table = some (write two_accounts 0 (record slot_a { health = bumped ints (pos 1) }));
}

serves_a : feedback ints (settings random) directory "a" success 1 none none 100 101 ≡ ok served
unfolding grok2apinew.Prelude.IntSet.nonempty grok2apinew.Prelude.IntSet.mem
    grok2apinew.Prelude.IntSet.add grok2apinew.Prelude.IntSet.filter
    grok2apinew.Prelude.IntSet.difference grok2apinew.Prelude.IntSet.intersection
    grok2apinew.Prelude.IntSet.union grok2apinew.Prelude.IntSet.discard
    grok2apinew.Prelude.SetMap.add_at grok2apinew.Prelude.SetMap.has_key
    grok2apinew.Prelude.SetMap.touch grok2apinew.Prelude.SetMap.discard_at
    grok2apinew.Runtime.Table.add_modes grok2apinew.Runtime.Table.slot_at
    grok2apinew.Runtime.Table.make_empty_table grok2apinew.Runtime.Table.new_slot
    grok2apinew.Runtime.Table.write grok2apinew.Runtime.Table.remove_modes
    grok2apinew.Runtime.Slot.col grok2apinew.Runtime.Slot.set_col
    grok2apinew.Runtime.Feedback.modify grok2apinew.Runtime.Feedback.apply_success_random
    grok2apinew.Runtime.Feedback.update_last_fail grok2apinew.Runtime.Feedback.adjust_health
    grok2apinew.Runtime.Feedback.apply_auth_failure grok2apinew.Runtime.Feedback.apply_status_change
    grok2apinew.Runtime.Directory.Feedback.feedback
    grok2apinew.Runtime.Directory.Feedback.feedback_at
    grok2apinew.Runtime.Directory.Feedback.feedback_by_kind
serves_a = refl

feedback-IsSound_example : IsSound served
feedback-IsSound_example =
    feedback-IsSound ints (settings random) directory served "a" success 1 none none 100 101
      (ground arith) serves_a two_accounts-IsConsistent

-- The first account was refused.
abbrev weaker : Slot ℤ
weaker = record slot_a { health = adjusted ints (pos 55) (pos 1) }

abbrev refused : Table ℤ
refused =
    status_changed (write (write two_accounts 0 weaker) 0 (failed_at 100 weaker)) 0
      (failed_at 100 weaker) expired

refuses_a :
    feedback_by_kind ints (settings random) unauthorized two_accounts 0 1 100 101 ≡ ok refused
unfolding grok2apinew.Prelude.IntSet.nonempty grok2apinew.Prelude.IntSet.mem
    grok2apinew.Prelude.IntSet.add grok2apinew.Prelude.IntSet.filter
    grok2apinew.Prelude.IntSet.difference grok2apinew.Prelude.IntSet.intersection
    grok2apinew.Prelude.IntSet.union grok2apinew.Prelude.IntSet.discard
    grok2apinew.Prelude.SetMap.add_at grok2apinew.Prelude.SetMap.has_key
    grok2apinew.Prelude.SetMap.touch grok2apinew.Prelude.SetMap.discard_at
    grok2apinew.Runtime.Table.add_modes grok2apinew.Runtime.Table.slot_at
    grok2apinew.Runtime.Table.make_empty_table grok2apinew.Runtime.Table.new_slot
    grok2apinew.Runtime.Table.write grok2apinew.Runtime.Table.remove_modes
    grok2apinew.Runtime.Slot.col grok2apinew.Runtime.Slot.set_col
    grok2apinew.Runtime.Feedback.modify grok2apinew.Runtime.Feedback.apply_success_random
    grok2apinew.Runtime.Feedback.update_last_fail grok2apinew.Runtime.Feedback.adjust_health
    grok2apinew.Runtime.Feedback.apply_auth_failure grok2apinew.Runtime.Feedback.apply_status_change
    grok2apinew.Runtime.Directory.Feedback.feedback
    grok2apinew.Runtime.Directory.Feedback.feedback_at
    grok2apinew.Runtime.Directory.Feedback.feedback_by_kind
refuses_a = refl
