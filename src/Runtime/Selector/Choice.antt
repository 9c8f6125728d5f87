-- ===== src/Runtime/Selector/Choice.antt =====
-- What the strategies of app/dataplane/account/selector.py select.
use grok2apinew.Prelude.{
  ℕ, ◌≡◌, sym, ◌∙◌, true, false, Option, none, some, List, arith, Bool-cases, inl, inr, get_elem?,
  if◌then◌else◌,
}
use grok2apinew.Prelude.Int.{pos, ltb_ℤ}
use grok2apinew.Prelude.Result.{Result, ok, >>=-eq-ok}
use grok2apinew.Prelude.IntSet.{mem, nonempty}
use grok2apinew.Prelude.SetMap.{pair_eq, holds}
use grok2apinew.Prelude.Float.{Float}
use grok2apinew.Runtime.Slot.{Slot, col, is_active}
use grok2apinew.Runtime.Table.{Table}
use grok2apinew.Runtime.Table.Invariant.{fits}
use grok2apinew.Runtime.Table.Writers.{IsConsistent}
use grok2apinew.Runtime.Selector.{
  without, prefer, keep_slots, maybe_reset_windows, has_some, quota_score, best_loop, best, lowest,
  quota_select,
}
use grok2apinew.Runtime.Selector.Best.{best_loop_found}
use grok2apinew.Runtime.Selector.Eligible.{
  is_excluded, mem-without, mem-prefer, Passes, mem-keep_slots,
}
use grok2apinew.Runtime.Selector.Windows.{maybe_reset_windows-IsConsistent}

module _ (f : Float) where
  -- A slot that stands in an index of a consistent table.
  pub indexed_slot :
      (t : Table f.Number) (p m i : ℕ) (s : Slot f.Number)
      → IsConsistent t
      → holds t.mode_available (p, m) i ≡ true
      → get_elem? t.slots i ≡ some s
      → (s.pool_id ≡ p) × (is_active s.status_id ≡ true)
  unfolding fits
  indexed_slot t p m i s h e here = ground (arith, h.sound p m i e)

  -- A slot that _best returns is in the working set.
  mem-best :
      (t : Table f.Number) (w : List ℕ) (m now i : ℕ)
      → best f t w m now ≡ ok (some i)
      → (mem i w ≡ true) × Passes t (has_some m) i
  unfolding best
  mem-best t w m now i h =
      let (r, loop, last) =
        >>=-eq-ok (best_loop f (has_some m) (quota_score f m now) t w (none, lowest f)) _ h in
      elim (best_loop_found f (has_some m) (quota_score f m now) t w (none, lowest f) r loop) [
        | inl kept ↦ absurd (ground (arith, kept))
        | inr (j, s, at_w, here, some_left, e) ↦
            let ji : j ≡ i = ground (arith, e) in rw (← ji) (at_w, (s, here, some_left))
      ]

  -- What a selection by quota has done.
  pub record Steps (t : Table f.Number) (p m : ℕ) (excluded preferred : Option (List ℕ)) (now : ℕ)
      (t' : Table f.Number) (i : ℕ) : Type 0 where
    pub working : List ℕ
    pub reset : maybe_reset_windows t (t.mode_available.bucket (p, m)) m p now ≡ ok t'
    pub kept :
        keep_slots t' (has_some m) (without excluded (t.mode_available.bucket (p, m))) ≡ ok working
    pub chosen : best f t' (prefer preferred working) m now ≡ ok (some i)

  found-Steps :
      (t t₁ t' : Table f.Number) (p m i now : ℕ) (excluded preferred : Option (List ℕ)) (w : List ℕ)
      (found : Option ℕ)
      → maybe_reset_windows t (t.mode_available.bucket (p, m)) m p now ≡ ok t₁
      → keep_slots t₁ (has_some m) (without excluded (t.mode_available.bucket (p, m))) ≡ ok w
      → best f t₁ (prefer preferred w) m now ≡ ok found
      → ◌≡◌ {A = Result (Table f.Number × Option ℕ)}
          (ok (if nonempty w then (t₁, found) else (t₁, none)))
          (ok (t', some i))
      → Steps t p m excluded preferred now t' i
  found-Steps t t₁ t' p m i now excluded preferred w found reset kept chosen h =
      let same : t₁ ≡ t' = ground (arith, h) in
      let one : found ≡ some i = ground (arith, h) in
      record {
        working = w;
        reset = rw (← same) reset;
        kept = rw (← same) kept;
        chosen = rw (← same, ← one) chosen;
      }

  pub quota_select-Steps :
      (t t' : Table f.Number) (p m i now : ℕ) (excluded preferred : Option (List ℕ))
      → quota_select f t p m excluded preferred now ≡ ok (t', some i)
      → Steps t p m excluded preferred now t' i
  unfolding quota_select
  quota_select-Steps t t' p m i now excluded preferred h =
      let candidates = t.mode_available.bucket (p, m) in
      elim (Bool-cases (nonempty candidates)) [
        | inr empty ↦ absurd (ground (arith, rw empty at h))
        | inl there ↦
            let (t₁, reset, h₁) =
              >>=-eq-ok (maybe_reset_windows t candidates m p now) _ (rw there at h) in
            let (w, kept, h₂) =
              >>=-eq-ok (keep_slots t₁ (has_some m) (without excluded candidates)) _ h₁ in
            let (found, chosen, h₃) = >>=-eq-ok (best f t₁ (prefer preferred w) m now) _ h₂ in
            found-Steps t t₁ t' p m i now excluded preferred w found reset kept chosen h₃
      ]

  -- From a consistent table, the slot that the quota strategy selects is an active slot of the pool that
  -- is not excluded and has quota left for the mode, and the table stays consistent.
  pub quota_select_eligible :
      (t t' : Table f.Number) (p m i now : ℕ) (excluded preferred : Option (List ℕ))
      → IsConsistent t
      → quota_select f t p m excluded preferred now ≡ ok (t', some i)
      → IsConsistent t'
        × (is_excluded excluded i ≡ false)
        × ((s : Slot f.Number) × (get_elem? t'.slots i ≡ some s)
            × (s.pool_id ≡ p)
            × (is_active s.status_id ≡ true)
            × (ltb_ℤ (pos 0) (col s.quota m) ≡ true))
  quota_select_eligible t t' p m i now excluded preferred h e =
      let a = quota_select-Steps t t' p m i now excluded preferred e in
      let (good, kept) =
        maybe_reset_windows-IsConsistent t t' (t.mode_available.bucket (p, m)) m p now a.reset h in
      let (at_best, (s, here, some_left)) =
        mem-best t' (prefer preferred a.working) m now i a.chosen in
      let at_working = mem-prefer preferred i a.working at_best in
      let (at_candidates, _) = mem-keep_slots t' (has_some m) _ a.working i a.kept at_working in
      let both = sym (mem-without excluded i (t.mode_available.bucket (p, m))) ∙ at_candidates in
      let in_index : holds t'.mode_available (p, m) i ≡ true =
        unfold holds in rw kept (ground arith) in
      let (pool, on) = indexed_slot t' p m i s good in_index here in
      (good, ground arith, (s, here, pool, on, some_left))
