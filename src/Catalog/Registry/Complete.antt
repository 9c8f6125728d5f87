-- ===== src/Catalog/Registry/Complete.antt =====
-- Every registered model is found under its name (app/control/model/registry.py), and every pool that
-- its requests may go to has its mode (app/control/account/quota_defaults.py).
use grok2apinew.Prelude.{ℕ, zero, suc, ◌≡◌, refl, some, List, [], ◌∷◌, get_elem?}
use grok2apinew.Prelude.Result.{ok}
use grok2apinew.Catalog.Spec.{ModelSpec}
use grok2apinew.Catalog.Registry.{models, resolve}

-- A property of every model of a list.
abbrev pub All : (ModelSpec → Type 0) → List ModelSpec → Type 0
All P [] = Unit
All P (m ∷ ms) = P m × All P ms

pub All-get_elem? :
    (P : ModelSpec → Type 0) (ms : List ModelSpec) (i : ℕ) (m : ModelSpec)
    → All P ms
    → get_elem? ms i ≡ some m
    → P m
All-get_elem? P [] i m h e = cc
All-get_elem? P (n ∷ ms) zero m h e = let same : n ≡ m = cc in rw (← same) h.0
All-get_elem? P (n ∷ ms) (suc i) m h e = All-get_elem? P ms i m h.1 e

abbrev Resolves : ModelSpec → Type 0
Resolves m = resolve m.model_name ≡ ok m

registry-Resolves : All Resolves models
unfolding resolve
registry-Resolves = (
  refl,
  (
    refl,
    (
      refl,
      (
        refl,
        (
          refl,
          (
            refl,
            (
              refl,
              (
                refl,
                (
                  refl,
                  (
                    refl,
                    (
                      refl,
                      (
                        refl,
                        (
                          refl,
                          (
                            refl,
                            (refl, (refl, (refl, (refl, (refl, (refl, (refl, (refl, tt)))))))),
                          ),
                        ),
                      ),
                    ),
                  ),
                ),
              ),
            ),
          ),
        ),
      ),
    ),
  ),
)

-- A registered model is resolved under its own name: no two registered models share a name.
pub resolve-model_name :
    (i : ℕ) (m : ModelSpec) → get_elem? models i ≡ some m → resolve m.model_name ≡ ok m
resolve-model_name i m e = All-get_elem? Resolves models i m registry-Resolves e
