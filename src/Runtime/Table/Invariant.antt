-- ===== src/Runtime/Table/Invariant.antt =====
-- The invariant that ties the selection indexes of app/dataplane/account/table.py to the columns, and
-- what keeps it: a slot whose index entries are rebuilt, and a slot whose pool, status and windows stay.
use grok2apinew.Prelude.{
  ℕ, ◌≡◌, ◌≢◌, Bool, true, false, ◌&&◌, ◌||◌, not, Option, none, some, List, ◌==◌, ltb, leb, arith,
  get_elem?, if◌then◌else◌, Bool-cases, inl, inr, ==_iff,
}
use grok2apinew.Prelude.IntSet.{mem}
use grok2apinew.Prelude.SetMap.{SetMap, pair_eq, holds}
use grok2apinew.Runtime.Slot.{Slot, col, is_active, all_mode_ids}
use grok2apinew.Runtime.Table.{add_modes, remove_modes}
use grok2apinew.Runtime.Table.Indexes.{holds-add_modes, holds-remove_modes}

mem-all_mode_ids : (m : ℕ) → mem m all_mode_ids ≡ leb m 4
unfolding mem
mem-all_mode_ids m = ground arith

ne_of_test : (i j : ℕ) → (i == j) ≡ false → i ≢ j
ne_of_test i j h e = ground arith

module _ {N : Type 0} where
  -- A slot that may stand in the index of a pool and a mode: live, active, and of that pool.
  unfoldable pub fits : Option (Slot N) → ℕ → ℕ → Bool
  fits none p m = false
  fits (some s) p m = s.pool_id == p && is_active s.status_id && leb m 4

  -- A slot that must stand in the index of its pool and a mode.
  unfoldable pub expects : Option (Slot N) → ℕ → Bool
  expects none m = false
  expects (some s) m = is_active s.status_id && leb m 4 && ltb 0 (col s.window m)

  unfoldable pub pool_of : Option (Slot N) → ℕ
  pool_of none = 0
  pool_of (some s) = s.pool_id

  pub record IsIndexed (slots : List (Slot N)) (d : SetMap (ℕ × ℕ)) : Type 0 where
    pub sound : (p m i : ℕ) → holds d (p, m) i ≡ true → fits (get_elem? slots i) p m ≡ true
    pub complete :
        (i m : ℕ)
        → expects (get_elem? slots i) m ≡ true
        → holds d (pool_of (get_elem? slots i), m) i ≡ true

  -- What _add_to_indexes makes of the indexes.
  abbrev pub enter : Slot N → ℕ → SetMap (ℕ × ℕ) → SetMap (ℕ × ℕ)
  enter s idx d = if is_active s.status_id then add_modes all_mode_ids s idx d else d

  -- The index entries of one slot are written anew, where there were none.
  module _ (slots slots' : List (Slot N)) (d : SetMap (ℕ × ℕ)) (idx : ℕ) (s : Slot N)
      (here : get_elem? slots' idx ≡ some s)
      (elsewhere : (j : ℕ) → idx ≢ j → get_elem? slots' j ≡ get_elem? slots j)
      (absent : (p m : ℕ) → holds d (p, m) idx ≡ false)
      (sound : (p m i : ℕ)
        → idx ≢ i
        → holds d (p, m) i ≡ true
        → fits (get_elem? slots i) p m ≡ true)
      (complete : (i m : ℕ)
        → idx ≢ i
        → expects (get_elem? slots i) m ≡ true
        → holds d (pool_of (get_elem? slots i), m) i ≡ true) where
    holds-entered :
        (p m i : ℕ)
        → holds (enter s idx d) (p, m) i ≡ (
            is_active s.status_id && leb m 4 && s.pool_id == p && idx == i && ltb 0 (col s.window m)
            || holds d (p, m) i)
    holds-entered p m i =
        ground (arith, holds-add_modes all_mode_ids s idx d p m i, mem-all_mode_ids m)

    entered_sound :
        (p m i : ℕ) → holds (enter s idx d) (p, m) i ≡ true → fits (get_elem? slots' i) p m ≡ true
    unfolding fits
    entered_sound p m i h = elim (Bool-cases (idx == i)) [
      | inl same ↦
          rw (← (==_iff idx i).0 same, here) (ground (arith, holds-entered p m i, absent p m))
      | inr other ↦
          let ne = ne_of_test idx i other in
          rw (elsewhere i ne) (unfold fits in sound p m i ne (ground (arith, holds-entered p m i)))
    ]

    entered_complete :
        (i m : ℕ)
        → expects (get_elem? slots' i) m ≡ true
        → holds (enter s idx d) (pool_of (get_elem? slots' i), m) i ≡ true
    unfolding expects pool_of
    entered_complete i m h = elim (Bool-cases (idx == i)) [
      | inl same ↦
          let e = (==_iff idx i).0 same in ground (arith, e, here, holds-entered s.pool_id m i)
      | inr other ↦
          let ne = ne_of_test idx i other in
          let kept = elsewhere i ne in
          ground (arith, kept, holds-entered (pool_of (get_elem? slots i)) m i, complete i m ne)
    ]

    pub entered-IsIndexed : IsIndexed slots' (enter s idx d)
    entered-IsIndexed = record { sound = entered_sound; complete = entered_complete }

  -- The index entries of one slot, taken out.
  module _ (slots : List (Slot N)) (d : SetMap (ℕ × ℕ)) (idx : ℕ) (s : Slot N)
      (here : get_elem? slots idx ≡ some s) (indexed : IsIndexed slots d) where
    pub holds-removed :
        (p m i : ℕ)
        → holds (remove_modes all_mode_ids s.pool_id idx d) (p, m) i
          ≡ (holds d (p, m) i && not (idx == i))
    unfolding fits
    holds-removed p m i = elim (Bool-cases (idx == i)) [
      | inl same ↦
          let e = (==_iff idx i).0 same in
          ground (
            arith,
            e,
            here,
            holds-remove_modes all_mode_ids s.pool_id idx d p m i,
            mem-all_mode_ids m,
            indexed.sound p m idx,
          )
      | inr other ↦ ground (arith, holds-remove_modes all_mode_ids s.pool_id idx d p m i)
    ]
