-- ===== src/Catalog/Spec/Pools.antt =====
-- Which pools a model's requests may go to, and in which order (app/control/model/spec.py).
use grok2apinew.Prelude.{ℕ, ◌≡◌, Bool, true, false, ◌&&◌, List, [], ◌∷◌, leb, ltb, arith}
use grok2apinew.Prelude.IntSet.{mem}
use grok2apinew.Catalog.Spec.{ModelSpec, Tier, basic, super, candidates, tier_int, pool_candidates}

-- In strictly rising or strictly falling order.
abbrev pub descends : Bool → ℕ → ℕ → Bool
descends true a b = ltb b a
descends false a b = ltb a b

abbrev pub ordered : Bool → List ℕ → Bool
ordered best [] = true
ordered best (a ∷ []) = true
ordered best (a ∷ b ∷ rest) = descends best a b && ordered best (b ∷ rest)

candidates_lem :
    (best : Bool) (tier : Tier) (p : ℕ)
    → (mem p (candidates best tier) ≡ (leb (tier_int tier) p && leb p 2))
      × (ordered best (candidates best tier) ≡ true)
unfolding mem
candidates_lem true basic p = ground arith
candidates_lem true super p = ground arith
candidates_lem true Tier.heavy p = ground arith
candidates_lem false basic p = ground arith
candidates_lem false super p = ground arith
candidates_lem false Tier.heavy p = ground arith

-- The pools that are tried for a model are exactly those of its tier and above, each once: from the best
-- pool downwards if the model prefers the best, and from its own tier upwards otherwise.
pub pool_candidates_complete :
    (spec : ModelSpec) (p : ℕ)
    → (mem p (pool_candidates spec) ≡ (leb (tier_int spec.tier) p && leb p 2))
      × (ordered spec.prefer_best (pool_candidates spec) ≡ true)
unfolding pool_candidates
pool_candidates_complete spec p = candidates_lem spec.prefer_best spec.tier p
