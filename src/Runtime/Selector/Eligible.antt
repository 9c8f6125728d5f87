-- ===== src/Runtime/Selector/Eligible.antt =====
-- Which slots the set operations of app/dataplane/account/selector.py let through.
use grok2apinew.Prelude.{
  ℕ, ◌≡◌, ◌⊎◌, Bool, true, false, ◌&&◌, not, Option, none, some, List, [], ◌∷◌, ◌==◌, arith,
  Bool-cases, inl, inr, get_elem?, if◌then◌else◌, ==_iff,
}
use grok2apinew.Prelude.Result.{ok, >>=-eq-ok}
use grok2apinew.Prelude.IntSet.{
  mem, union, intersection, mem-union, mem-difference, mem-intersection, nonempty_of_mem,
}
use grok2apinew.Prelude.SetMap.{SetMap, pair_eq, holds}
use grok2apinew.Runtime.Slot.{Slot}
use grok2apinew.Runtime.Table.{Table}
use grok2apinew.Runtime.Table.Access.{slot_at-bind}
use grok2apinew.Runtime.Selector.{pool_union, union_keys, without, prefer, keep_slots}

abbrev pub is_excluded : Option (List ℕ) → ℕ → Bool
is_excluded none i = false
is_excluded (some excluded) i = mem i excluded

pub mem-without :
    (excluded : Option (List ℕ)) (i : ℕ) (w : List ℕ)
    → mem i (without excluded w) ≡ (mem i w && not (is_excluded excluded i))
unfolding without mem
mem-without none i w = ground arith
mem-without (some []) i w = ground arith
mem-without (some (x ∷ xs)) i w = mem-difference i w (x ∷ xs)

-- The slots at hand after the preference are slots that were at hand.
pub mem-prefer :
    (p : Option (List ℕ)) (i : ℕ) (w : List ℕ) → mem i (prefer p w) ≡ true → mem i w ≡ true
unfolding prefer
mem-prefer none i w h = h
mem-prefer (some p) i w h = ground (arith, mem-intersection i w p)

-- If any of the slots at hand is preferred, every slot that is left after the preference is a preferred
-- one.
pub mem-prefer_preferred :
    (p : List ℕ) (i j : ℕ) (w : List ℕ)
    → mem j w ≡ true
    → mem j p ≡ true
    → mem i (prefer (some p) w) ≡ true
    → mem i p ≡ true
unfolding prefer
mem-prefer_preferred p i j w a b h = ground (
  arith,
  mem-intersection i w p,
  mem-intersection j w p,
  nonempty_of_mem j p b,
  nonempty_of_mem j (intersection w p),
)

in_bucket :
    (d : SetMap (ℕ × ℕ)) (q p m i : ℕ)
    → q ≡ p
    → mem i (d.bucket (q, m)) ≡ true
    → holds d (p, m) i ≡ true
unfolding holds
in_bucket d q p m i e h = rw (← e) h

mem-union_keys :
    (keys : List (ℕ × ℕ)) (d : SetMap (ℕ × ℕ)) (p i : ℕ) (out : List ℕ)
    → mem i (union_keys keys d p out) ≡ true
    → (mem i out ≡ true) ⊎ ((m : ℕ) × (holds d (p, m) i ≡ true))
mem-union_keys [] d p i out h = inl h
mem-union_keys ((q, m) ∷ keys) d p i out h = elim (Bool-cases (q == p)) [
  | inr other ↦ mem-union_keys keys d p i out (rw other at h)
  | inl same ↦ elim (mem-union_keys keys d p i (union out (d.bucket (q, m))) (rw same at h)) [
    | inr found ↦ inr found
    | inl e ↦ elim (Bool-cases (mem i out)) [
      | inl old ↦ inl old
      | inr new ↦ inr (
        m,
        in_bucket d q p m i ((==_iff q p).0 same)
            (ground (arith, mem-union i out (d.bucket (q, m)))),
      )
    ]
  ]
]

-- What stands in the union of a pool stands in the index of the pool and some mode.
pub mem-pool_union :
    (d : SetMap (ℕ × ℕ)) (p i : ℕ)
    → mem i (pool_union d p) ≡ true
    → (m : ℕ) × (holds d (p, m) i ≡ true)
unfolding pool_union mem
mem-pool_union d p i h = elim (mem-union_keys d.keys d p i [] h) [ inl e ↦ cc | inr found ↦ found ]

module _ {N : Type 0} where
  -- A slot that exists and passes a test.
  abbrev pub Passes : Table N → (Slot N → Bool) → ℕ → Type 0
  Passes t test i = (s : Slot N) × (get_elem? t.slots i ≡ some s) × (test s ≡ true)

  mem-cons_kept :
      (t : Table N) (test : Slot N → Bool) (s : Slot N) (j i : ℕ) (rest : List ℕ)
      → get_elem? t.slots j ≡ some s
      → mem i (if test s then j ∷ rest else rest) ≡ true
      → (j ≡ i) × Passes t test i ⊎ (mem i rest ≡ true)
  unfolding mem
  mem-cons_kept t test s j i rest here e = elim (Bool-cases (test s)) [
    | inr fails ↦ inr (rw fails at e)
    | inl passes ↦ elim (Bool-cases (j == i)) [
      | inl same ↦ let eq = (==_iff j i).0 same in inl (eq, (s, cc (eq, here), passes))
      | inr other ↦ inr (ground arith)
    ]
  ]

  pub mem-keep_slots :
      (t : Table N) (test : Slot N → Bool) (w w' : List ℕ) (i : ℕ)
      → keep_slots t test w ≡ ok w'
      → mem i w' ≡ true
      → (mem i w ≡ true) × Passes t test i
  unfolding keep_slots mem
  mem-keep_slots t test [] w' i h e = absurd (ground arith)
  mem-keep_slots t test (j ∷ w) w' i h e =
      let (s, here, more) = slot_at-bind t j _ h in
      let (rest, kept, last) = >>=-eq-ok (keep_slots t test w) _ more in
      let same : w' ≡ (if test s then j ∷ rest else rest) = cc in
      elim (mem-cons_kept t test s j i rest here (rw same at e)) [
        | inl (eq, p) ↦ (ground (arith, eq), p)
        | inr later ↦
            let (a, p) = mem-keep_slots t test w rest i kept later in (ground (arith, a), p)
      ]

  -- Nothing that passes is lost.
  pub keep_slots_complete :
      (t : Table N) (test : Slot N → Bool) (w w' : List ℕ) (i : ℕ) (s : Slot N)
      → keep_slots t test w ≡ ok w'
      → mem i w ≡ true
      → get_elem? t.slots i ≡ some s
      → test s ≡ true
      → mem i w' ≡ true
  unfolding keep_slots mem
  keep_slots_complete t test [] w' i s h e here pass = cc
  keep_slots_complete t test (j ∷ w) w' i s h e here pass =
      let (s₁, here₁, more) = slot_at-bind t j _ h in
      let (rest, kept, last) = >>=-eq-ok (keep_slots t test w) _ more in
      let same : w' ≡ (if test s₁ then j ∷ rest else rest) = cc in
      elim (Bool-cases (j == i)) [
        | inl eq ↦
            let ji = (==_iff j i).0 eq in
            let one : some s₁ ≡ some s = cc (ji, here, here₁) in rw same (ground (arith, one, eq))
        | inr other ↦ rw same (
            ground
              (arith, keep_slots_complete t test w rest i s kept (ground arith) here pass, other))
      ]
