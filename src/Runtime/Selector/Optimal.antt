-- ===== src/Runtime/Selector/Optimal.antt =====
-- The quota strategy of app/dataplane/account/selector.py picks a best candidate.
use grok2apinew.Prelude.{
  ℕ, ◌≡◌, ◌∙◌, true, false, Option, none, some, List, arith, inl, inr, get_elem?,
}
use grok2apinew.Prelude.Int.{pos, ltb_ℤ}
use grok2apinew.Prelude.Result.{ok, >>=-eq-ok}
use grok2apinew.Prelude.IntSet.{mem}
use grok2apinew.Prelude.SetMap.{pair_eq, holds}
use grok2apinew.Prelude.Float.{Float, FloatLaws}
use grok2apinew.Runtime.Slot.{Slot, col}
use grok2apinew.Runtime.Table.{Table}
use grok2apinew.Runtime.Selector.{
  prefer, has_some, quota_score, best_loop, best, lowest, quota_select,
}
use grok2apinew.Runtime.Selector.Best.{best_loop_found, best_loop_maximal}
use grok2apinew.Runtime.Selector.Eligible.{is_excluded, mem-without, keep_slots_complete}
use grok2apinew.Runtime.Selector.Choice.{quota_select-Steps}

module _ (f : Float) (laws : FloatLaws f) where
  best_unbeaten :
      (t : Table f.Number) (w : List ℕ) (m now i j : ℕ) (s s' : Slot f.Number)
      → best f t w m now ≡ ok (some i)
      → get_elem? t.slots i ≡ some s
      → mem j w ≡ true
      → get_elem? t.slots j ≡ some s'
      → has_some m s' ≡ true
      → f.lt (quota_score f m now s) (quota_score f m now s') ≡ false
  unfolding best
  best_unbeaten t w m now i j s s' h here at_w here' q =
      let (r, loop, last) =
        >>=-eq-ok (best_loop f (has_some m) (quota_score f m now) t w (none, lowest f)) _ h in
      let top =
        best_loop_maximal f laws (has_some m) (quota_score f m now) t w (none, lowest f) r j s' loop
          at_w here' q in
      elim (best_loop_found f (has_some m) (quota_score f m now) t w (none, lowest f) r loop) [
        | inl kept ↦ absurd (ground (arith, kept))
        | inr (k, s₁, _, here₁, _, e) ↦
            let ki : k ≡ i = ground (arith, e) in
            let one : some s₁ ≡ some s = cc (ki, here, here₁) in
            let same : s₁ ≡ s = cc one in
            let final : r.1 ≡ quota_score f m now s₁ = ground (arith, e) in rw (← same, ← final) top
      ]

  -- With no preference, no slot that stands in the index of the pool and mode, is not excluded and has
  -- quota left has a higher score than the slot that the quota strategy selects, for numbers whose order
  -- is irreflexive and transitive.
  pub quota_select_best :
      (t t' : Table f.Number) (p m i j now : ℕ) (excluded : Option (List ℕ)) (s s' : Slot f.Number)
      → quota_select f t p m excluded none now ≡ ok (t', some i)
      → get_elem? t'.slots i ≡ some s
      → holds t.mode_available (p, m) j ≡ true
      → is_excluded excluded j ≡ false
      → get_elem? t'.slots j ≡ some s'
      → ltb_ℤ (pos 0) (col s'.quota m) ≡ true
      → f.lt (quota_score f m now s) (quota_score f m now s') ≡ false
  unfolding prefer holds
  quota_select_best t t' p m i j now excluded s s' e here member free here' q =
      let a = quota_select-Steps f t t' p m i now excluded none e in
      let at_working =
        keep_slots_complete t' (has_some m) _ a.working j s' a.kept
          (mem-without excluded j _ ∙ ground arith) here' q in
      best_unbeaten t' a.working m now i j s s' a.chosen here at_working here' q
