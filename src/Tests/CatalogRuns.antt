-- ===== src/Tests/CatalogRuns.antt =====
-- The theorems on the models and on the reservation for one, at a registered model.
use grok2apinew.Prelude.{ℕ, ◌≡◌, refl, true, false, Option, none, some, List, [], ◌∷◌, get_elem?}
use grok2apinew.Prelude.Int.{pos}
use grok2apinew.Prelude.Result.{ok}
use grok2apinew.Account.Quota.{supports_mode}
use grok2apinew.Runtime.Slot.{pool_name}
use grok2apinew.Runtime.Selector.{random}
use grok2apinew.Catalog.Spec.{ModelSpec, fast, basic, chat, pool_candidates}
use grok2apinew.Catalog.Selection.{mode_candidates, reserve_account}
use grok2apinew.Catalog.Selection.Supported.{candidates-supports_mode}
use grok2apinew.Catalog.Selection.Served.{IsServed, reserve_account-IsServed}
use grok2apinew.Tests.Sample.{
  ints, conversions, settings, directory, two_accounts-IsConsistent, lease_b, leased,
}

-- The first model of the registry.
abbrev first_model : ModelSpec
first_model = record {
  model_name = "grok-4.20-0309-non-reasoning";
  mode_id = fast;
  tier = basic;
  capability = chat;
  enabled = true;
  public_name = "Grok 4.20 0309 Non-Reasoning";
  prefer_best = false;
}

candidates-supports_mode_example : supports_mode (pool_name 2) 1 ≡ true
candidates-supports_mode_example =
    candidates-supports_mode true 0 2 1 first_model refl
      (unfold grok2apinew.Catalog.Spec.pool_candidates grok2apinew.Prelude.IntSet.mem in refl)
      (unfold grok2apinew.Catalog.Selection.mode_candidates grok2apinew.Catalog.Spec.is_chat
          grok2apinew.Catalog.Spec.has_capability grok2apinew.Prelude.IntSet.mem in
        refl)

reserves_b :
    reserve_account ints (settings random) ("a" ∷ []) 100 true none directory first_model
    ≡ ok (leased, some lease_b, 1)
unfolding grok2apinew.Prelude.IntSet.nonempty grok2apinew.Prelude.IntSet.mem
    grok2apinew.Prelude.IntSet.add grok2apinew.Prelude.IntSet.filter
    grok2apinew.Prelude.IntSet.difference grok2apinew.Prelude.IntSet.intersection
    grok2apinew.Prelude.IntSet.union grok2apinew.Prelude.IntSet.discard
    grok2apinew.Prelude.SetMap.add_at grok2apinew.Prelude.SetMap.has_key
    grok2apinew.Prelude.SetMap.touch grok2apinew.Prelude.SetMap.discard_at
    grok2apinew.Runtime.Table.add_modes grok2apinew.Runtime.Table.slot_at
    grok2apinew.Runtime.Table.make_empty_table grok2apinew.Runtime.Table.new_slot
    grok2apinew.Runtime.Table.write grok2apinew.Runtime.Table.remove_modes
    grok2apinew.Runtime.Slot.col grok2apinew.Runtime.Slot.set_col
    grok2apinew.Runtime.Selector.pool_union grok2apinew.Runtime.Selector.keep_slots
    grok2apinew.Runtime.Selector.without grok2apinew.Runtime.Selector.prefer
    grok2apinew.Runtime.Selector.random_select grok2apinew.Runtime.Directory.exclude_idxs
    grok2apinew.Runtime.Directory.prefer_tag_idxs grok2apinew.Runtime.Directory.select
    grok2apinew.Runtime.Directory.try_pools grok2apinew.Runtime.Directory.grant
    grok2apinew.Runtime.Directory.reserve grok2apinew.Runtime.Feedback.modify
    grok2apinew.Runtime.Feedback.increment_inflight grok2apinew.Runtime.Feedback.update_last_use
    grok2apinew.Runtime.Table.get_token grok2apinew.Runtime.Table.get_pool_id
    grok2apinew.Catalog.Selection.mode_candidates grok2apinew.Catalog.Selection.try_reserve
    grok2apinew.Catalog.Selection.reserve_account grok2apinew.Catalog.Spec.pool_candidates
    grok2apinew.Catalog.Spec.is_chat grok2apinew.Catalog.Spec.has_capability
reserves_b = refl

reserve_account-IsServed_example :
    IsServed
      (pool_candidates first_model)
      (mode_candidates true first_model)
      ("a" ∷ [])
      100
      leased
      lease_b
      1
reserve_account-IsServed_example =
    reserve_account-IsServed ints (settings random) ("a" ∷ []) 100 conversions (pos 0) true none
      directory leased first_model lease_b 1 two_accounts-IsConsistent
      (λ refreshed before after e. cc) reserves_b
