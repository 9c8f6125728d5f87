-- ===== src/Runtime/Selector/Best.antt =====
-- The scoring loop of app/dataplane/account/selector.py returns a slot that no other slot beats.
use grok2apinew.Prelude.{
  ℕ, ◌≡◌, ◌⊎◌, ◌∙◌, Bool, true, false, ◌&&◌, Option, some, List, [], ◌∷◌, ◌==◌, arith, Bool-cases,
  inl, inr, get_elem?, if◌then◌else◌, ==_iff,
}
use grok2apinew.Prelude.Result.{ok}
use grok2apinew.Prelude.IntSet.{mem}
use grok2apinew.Prelude.Float.{Float, FloatLaws}
use grok2apinew.Runtime.Slot.{Slot}
use grok2apinew.Runtime.Table.{Table}
use grok2apinew.Runtime.Table.Access.{slot_at-bind}
use grok2apinew.Runtime.Selector.{best_loop}

module _ (f : Float) (counts : Slot f.Number → Bool) (score : Slot f.Number → f.Number)
    (t : Table f.Number) where
  -- The loop's next best, after a slot.
  step : ℕ → Slot f.Number → Option ℕ × f.Number → Option ℕ × f.Number
  step idx s best = if counts s && f.lt best.1 (score s) then (some idx, score s) else best

  -- The slot that is returned is one of the working set that counts, with the final score, or else
  -- the one that the loop began with.
  pub best_loop_found :
      (w : List ℕ) (b r : Option ℕ × f.Number)
      → best_loop f counts score t w b ≡ ok r
      → (r ≡ b)
        ⊎ ((i : ℕ) × (s : Slot f.Number) × (mem i w ≡ true)
            × (get_elem? t.slots i ≡ some s)
            × (counts s ≡ true)
            × (r ≡ (some i, score s)))
  unfolding best_loop mem
  best_loop_found [] b r h = inl (ground arith)
  best_loop_found (j ∷ w) b r h =
      let (s, here, more) = slot_at-bind t j _ h in
      elim (best_loop_found w (step j s b) r (unfold step in more)) [
        | inr (i, s', m, at_i, c, e) ↦ inr (i, s', ground (arith, m), at_i, c, e)
        | inl kept ↦ elim (Bool-cases (counts s && f.lt b.1 (score s))) [
          | inl better ↦
              inr (j, s, ground arith, here, ground arith, unfold step in ground (arith, kept))
          | inr not_better ↦ inl (unfold step in ground (arith, kept))
        ]
      ]

module _ (f : Float) (laws : FloatLaws f) (counts : Slot f.Number → Bool)
    (score : Slot f.Number → f.Number) (t : Table f.Number) where
  abbrev next : ℕ → Slot f.Number → Option ℕ × f.Number → Option ℕ × f.Number
  next = step f counts score t

  -- The best score never falls.
  abbrev Climbs : f.Number → f.Number → Type 0
  Climbs a b = (b ≡ a) ⊎ (f.lt a b ≡ true)

  climb : (a b c : f.Number) → Climbs a b → Climbs b c → Climbs a c
  climb a b c (inl p) (inl q) = inl (q ∙ p)
  climb a b c (inl p) (inr q) = inr (rw p at q)
  climb a b c (inr p) (inl q) = inr (rw q p)
  climb a b c (inr p) (inr q) = inr (laws.lt_trans a b c p q)

  not_beaten : (a b : f.Number) → Climbs a b → f.lt b a ≡ false
  not_beaten a b (inl p) = rw p (laws.lt_irrefl a)
  not_beaten a b (inr p) = elim (Bool-cases (f.lt b a)) [
    | inr unbeaten ↦ unbeaten
    | inl q ↦ absurd (ground (arith, laws.lt_trans a b a p q, laws.lt_irrefl a))
  ]

  step-Climbs :
      (idx : ℕ) (s : Slot f.Number) (b : Option ℕ × f.Number) → Climbs b.1 (next idx s b).1
  unfolding step
  step-Climbs idx s b = ground arith

  loop-Climbs :
      (w : List ℕ) (b r : Option ℕ × f.Number)
      → best_loop f counts score t w b ≡ ok r
      → Climbs b.1 r.1
  unfolding best_loop
  loop-Climbs [] b r h = inl (ground arith)
  loop-Climbs (idx ∷ w) b r h =
      let (s, here, more) = slot_at-bind t idx _ h in
      climb b.1 (next idx s b).1 r.1 (step-Climbs idx s b)
        (loop-Climbs w (next idx s b) r (unfold step in more))

  -- A slot's score does not beat what its own turn leaves.
  step_not_beaten :
      (idx : ℕ) (s : Slot f.Number) (b : Option ℕ × f.Number)
      → counts s ≡ true
      → (score s ≡ (next idx s b).1) ⊎ (f.lt (next idx s b).1 (score s) ≡ false)
  unfolding step
  step_not_beaten idx s b h = ground arith

  -- Nor what any later turn leaves.
  stays_unbeaten : (a b x : f.Number) → (x ≡ a) ⊎ (f.lt a x ≡ false) → Climbs a b → f.lt b x ≡ false
  stays_unbeaten a b x (inl p) c = rw p (not_beaten a b c)
  stays_unbeaten a b x (inr p) (inl q) = rw q p
  stays_unbeaten a b x (inr p) (inr q) = elim (Bool-cases (f.lt b x)) [
    | inr unbeaten ↦ unbeaten
    | inl y ↦ absurd (ground (arith, laws.lt_trans a b x q y, p))
  ]

  -- No slot of the working set that counts has a score above the final one.
  pub best_loop_maximal :
      (w : List ℕ) (b r : Option ℕ × f.Number) (i : ℕ) (s : Slot f.Number)
      → best_loop f counts score t w b ≡ ok r
      → mem i w ≡ true
      → get_elem? t.slots i ≡ some s
      → counts s ≡ true
      → f.lt r.1 (score s) ≡ false
  unfolding best_loop mem
  best_loop_maximal [] b r i s h e here c = cc
  best_loop_maximal (j ∷ w) b r i s h e here c =
      let (s₁, here₁, more) = slot_at-bind t j _ h in
      elim (Bool-cases (j == i)) [
        | inr other ↦
            best_loop_maximal w (next j s₁ b) r i s (unfold step in more) (ground (arith, e, other))
              here c
        | inl same ↦
            let ji = (==_iff j i).0 same in
            let one : some s₁ ≡ some s = cc (ji, here, here₁) in
            let one' : s₁ ≡ s = cc one in
            rw (← one') (
              stays_unbeaten (next j s₁ b).1 r.1 (score s₁) (step_not_beaten j s₁ b (rw one' c))
                (loop-Climbs w (next j s₁ b) r (unfold step in more)))
      ]
