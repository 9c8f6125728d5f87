-- ===== src/Runtime/Table/Indexes.antt =====
-- What the selection indexes hold: membership after the loops of table.py that write them.
use grok2apinew.Prelude.{
  ℕ, ◌≡◌, refl, ◌&&◌, ◌||◌, not, List, [], ◌∷◌, ◌==◌, ltb, arith, if◌then◌else◌,
}
use grok2apinew.Prelude.IntSet.{mem}
use grok2apinew.Prelude.SetMap.{
  SetMap, pair_eq, holds, add_at, discard_at, holds-add_at, holds-discard_at,
}
use grok2apinew.Runtime.Slot.{Slot, col}
use grok2apinew.Runtime.Table.{add_modes, remove_modes}

module _ {N : Type 0} where
  pub holds-add_modes :
      (ms : List ℕ) (s : Slot N) (idx : ℕ) (d : SetMap (ℕ × ℕ)) (p m j : ℕ)
      → holds (add_modes ms s idx d) (p, m) j
        ≡ (mem m ms && s.pool_id == p && idx == j && ltb 0 (col s.window m) || holds d (p, m) j)
  unfolding add_modes mem
  holds-add_modes [] s idx d p m j = refl
  holds-add_modes (n ∷ ms) s idx d p m j = ground (
    arith,
    holds-add_modes ms s idx (if ltb 0 (col s.window n) then add_at (s.pool_id, n) idx d else d) p m
        j,
    holds-add_at d (s.pool_id, n) (p, m) idx j,
  )

pub holds-remove_modes :
    (ms : List ℕ) (q idx : ℕ) (d : SetMap (ℕ × ℕ)) (p m j : ℕ)
    → holds (remove_modes ms q idx d) (p, m) j
      ≡ (holds d (p, m) j && not (mem m ms && q == p && j == idx))
unfolding remove_modes mem
holds-remove_modes [] q idx d p m j = ground arith
holds-remove_modes (n ∷ ms) q idx d p m j = ground (
  arith,
  holds-remove_modes ms q idx (discard_at (q, n) idx d) p m j,
  holds-discard_at d (q, n) (p, m) idx j,
)
