-- ===== src/Catalog/Selection/Supported.antt =====
-- The pools and modes that are tried for a registered model fit one another (app/control/model/registry.py,
-- app/products/_account_selection.py, app/control/account/quota_defaults.py).
use grok2apinew.Prelude.{
  ℕ, ◌≡◌, refl, Bool, true, false, ◌&&◌, some, List, [], ◌∷◌, get_elem?, arith,
}
use grok2apinew.Prelude.IntSet.{mem}
use grok2apinew.Account.Quota.{supports_mode}
use grok2apinew.Runtime.Slot.{pool_name}
use grok2apinew.Catalog.Spec.{ModelSpec, pool_candidates}
use grok2apinew.Catalog.Registry.{models}
use grok2apinew.Catalog.Registry.Complete.{All, All-get_elem?}
use grok2apinew.Catalog.Selection.{mode_candidates}

-- Every one of the modes is one of the pool's, and so for every one of the pools.
all_modes : ℕ → List ℕ → Bool
all_modes p [] = true
all_modes p (m ∷ ms) = supports_mode (pool_name p) m && all_modes p ms

all_pools : List ℕ → List ℕ → Bool
unfolding all_modes supports_mode pool_name
all_pools [] ms = true
all_pools (p ∷ ps) ms = all_modes p ms && all_pools ps ms

all_modes_sound :
    (p m : ℕ) (ms : List ℕ)
    → all_modes p ms ≡ true
    → mem m ms ≡ true
    → supports_mode (pool_name p) m ≡ true
unfolding all_modes mem
all_modes_sound p m [] h e = cc
all_modes_sound p m (n ∷ ms) h e = ground (arith, all_modes_sound p m ms)

all_pools_sound :
    (p m : ℕ) (ps ms : List ℕ)
    → all_pools ps ms ≡ true
    → mem p ps ≡ true
    → mem m ms ≡ true
    → supports_mode (pool_name p) m ≡ true
unfolding all_pools mem
all_pools_sound p m [] ms h e k = cc
all_pools_sound p m (q ∷ ps) ms h e k =
    ground (arith, all_modes_sound p m ms, all_pools_sound p m ps ms)

abbrev Fits : Bool → ModelSpec → Type 0
Fits fallback spec = all_pools (pool_candidates spec) (mode_candidates fallback spec) ≡ true

registry-Fits : (fallback : Bool) → All (Fits fallback) models
unfolding all_pools pool_candidates mode_candidates mem
registry-Fits true = (
  refl,
  (
    refl,
    (
      refl,
      (
        refl,
        (
          refl,
          (
            refl,
            (
              refl,
              (
                refl,
                (
                  refl,
                  (
                    refl,
                    (
                      refl,
                      (
                        refl,
                        (
                          refl,
                          (
                            refl,
                            (refl, (refl, (refl, (refl, (refl, (refl, (refl, (refl, tt)))))))),
                          ),
                        ),
                      ),
                    ),
                  ),
                ),
              ),
            ),
          ),
        ),
      ),
    ),
  ),
)
registry-Fits false = (
  refl,
  (
    refl,
    (
      refl,
      (
        refl,
        (
          refl,
          (
            refl,
            (
              refl,
              (
                refl,
                (
                  refl,
                  (
                    refl,
                    (
                      refl,
                      (
                        refl,
                        (
                          refl,
                          (
                            refl,
                            (refl, (refl, (refl, (refl, (refl, (refl, (refl, (refl, tt)))))))),
                          ),
                        ),
                      ),
                    ),
                  ),
                ),
              ),
            ),
          ),
        ),
      ),
    ),
  ),
)

-- For a registered model, every pool that is tried supports every mode that is tried, the fallback modes
-- included.
pub candidates-supports_mode :
    (fallback : Bool) (i p m : ℕ) (spec : ModelSpec)
    → get_elem? models i ≡ some spec
    → mem p (pool_candidates spec) ≡ true
    → mem m (mode_candidates fallback spec) ≡ true
    → supports_mode (pool_name p) m ≡ true
candidates-supports_mode fallback i p m spec e pool mode =
    all_pools_sound p m (pool_candidates spec) (mode_candidates fallback spec)
      (All-get_elem? (Fits fallback) models i spec (registry-Fits fallback) e) pool mode
