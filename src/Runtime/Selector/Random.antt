-- ===== src/Runtime/Selector/Random.antt =====
-- The random strategy of app/dataplane/account/selector.py picks a free slot.
use grok2apinew.Prelude.{
  ℕ, zero, suc, ◌≡◌, sym, ◌∙◌, true, false, Option, some, List, [], ◌∷◌, arith, Bool-cases, inl,
  inr, leb, length, get_elem?,
}
use grok2apinew.Prelude.Int.{ℤ, pos, ltb_ℤ}
use grok2apinew.Prelude.Result.{ok, >>=-eq-ok}
use grok2apinew.Prelude.IntSet.{mem, nonempty}
use grok2apinew.Prelude.Float.{Float}
use grok2apinew.Runtime.Slot.{Slot, is_active}
use grok2apinew.Runtime.Table.{Table}
use grok2apinew.Runtime.Table.Writers.{IsConsistent}
use grok2apinew.Runtime.Selector.{pool_union, without, prefer, keep_slots, is_free, random_select}
use grok2apinew.Runtime.Selector.Eligible.{
  is_excluded, mem-without, mem-prefer, mem-pool_union, mem-keep_slots,
}
use grok2apinew.Runtime.Selector.Choice.{indexed_slot}

mem-get_elem? : (w : List ℕ) (k i : ℕ) → get_elem? w k ≡ some i → mem i w ≡ true
unfolding mem
mem-get_elem? [] k i h = cc
mem-get_elem? (x ∷ w) zero i h = ground arith
mem-get_elem? (x ∷ w) (suc k) i h = ground (arith, mem-get_elem? w k i h)

module _ (f : Float) where
  -- What a random selection has done.
  record Drawn (choice : ℕ → ℕ) (max_inflight : ℤ) (t : Table f.Number) (p : ℕ)
      (excluded preferred : Option (List ℕ)) (now : ℕ) (t' : Table f.Number) (i : ℕ) : Type 0 where
    working : List ℕ
    same : t ≡ t'
    kept :
        keep_slots t (is_free f now max_inflight) (without excluded (pool_union t.mode_available p))
        ≡ ok working
    drawn :
        get_elem? (prefer preferred working) (choice (length (prefer preferred working))) ≡ some i

  random_select-Drawn :
      (choice : ℕ → ℕ) (max_inflight : ℤ) (t t' : Table f.Number) (p i now : ℕ)
      (excluded preferred : Option (List ℕ))
      → random_select f choice max_inflight t p excluded preferred now ≡ ok (t', some i)
      → Drawn choice max_inflight t p excluded preferred now t' i
  unfolding random_select
  random_select-Drawn choice max_inflight t t' p i now excluded preferred h =
      let candidates = pool_union t.mode_available p in
      elim (Bool-cases (nonempty candidates)) [
        | inr empty ↦ absurd (ground (arith, rw empty at h))
        | inl there ↦
            let (w, kept, last) =
              >>=-eq-ok (keep_slots t (is_free f now max_inflight) (without excluded candidates)) _
                (rw there at h) in
            record {
              working = w;
              same = ground (arith, last);
              kept = kept;
              drawn = ground (arith, last);
            }
      ]

  -- From a consistent table, the slot that is drawn at random is an active slot of the pool that is
  -- not excluded, is not cooling and has room for a request; nothing is written.
  pub random_select_eligible :
      (choice : ℕ → ℕ) (max_inflight : ℤ) (t t' : Table f.Number) (p i now : ℕ)
      (excluded preferred : Option (List ℕ))
      → IsConsistent t
      → random_select f choice max_inflight t p excluded preferred now ≡ ok (t', some i)
      → (t ≡ t')
        × (is_excluded excluded i ≡ false)
        × ((s : Slot f.Number) × (get_elem? t.slots i ≡ some s)
            × (s.pool_id ≡ p)
            × (is_active s.status_id ≡ true)
            × (leb s.cooling_until_s now ≡ true)
            × (ltb_ℤ (pos s.inflight) max_inflight ≡ true))
  random_select_eligible choice max_inflight t t' p i now excluded preferred h e =
      let a = random_select-Drawn choice max_inflight t t' p i now excluded preferred e in
      let at_working = mem-prefer preferred i a.working (mem-get_elem? _ _ i a.drawn) in
      let (at_candidates, (s, here, free)) =
        mem-keep_slots t (is_free f now max_inflight) _ a.working i a.kept at_working in
      let both = sym (mem-without excluded i (pool_union t.mode_available p)) ∙ at_candidates in
      let (m, in_index) = mem-pool_union t.mode_available p i (ground arith) in
      let (pool, on) = indexed_slot f t p m i s h in_index here in
      (a.same, ground arith, (s, here, pool, on, ground arith, ground arith))
