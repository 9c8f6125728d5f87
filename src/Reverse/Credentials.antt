-- ===== src/Reverse/Credentials.antt =====
-- Failures on invalid credentials (app/dataplane/reverse/protocol/xai_usage.py and
-- app/control/account/invalid_credentials.py).
use mathlib.Core.List.{Memᴰ}
use grok2apinew.Prelude.{ℕ, ◌≡◌, refl, true, Option, some, List, [], ◌∷◌, Bool-cases, inl, inr}
use grok2apinew.Prelude.Int.{ℤ}
use grok2apinew.Account.Models.{QuotaWindow}
use grok2apinew.Reverse.{
  Failure, is_invalid_credentials_error, Answer, failed, Fetched, raised, returned, fetch_one,
  first_invalid, fetch_each, fetch_all_quotas, requested,
}

abbrev Raises : List (ℕ × Fetched (Option QuotaWindow)) → Type 0
Raises results =
    (first : Failure) × (first_invalid results ≡ some first)
    × (is_invalid_credentials_error first ≡ true)

invalid_first :
    (m : ℕ) (exc : Failure) (results : List (ℕ × Fetched (Option QuotaWindow)))
    → is_invalid_credentials_error exc ≡ true
    → Raises ((m, raised exc) ∷ results)
unfolding first_invalid
invalid_first m exc results h = (exc, rw (h) refl, h)

invalid_later :
    (m : ℕ) (r : Fetched (Option QuotaWindow)) (results : List (ℕ × Fetched (Option QuotaWindow)))
    → Raises results
    → Raises ((m, r) ∷ results)
unfolding first_invalid
invalid_later m (returned w) results found = found
invalid_later m (raised exc) results (first, e, h) =
    elim (Bool-cases (is_invalid_credentials_error exc)) [
      | inl invalid ↦ (exc, rw (invalid) refl, invalid)
      | inr other ↦ (first, rw (other) e, h)
    ]

failed-raised :
    (now : ℤ) (m : ℕ) (exc : Failure)
    → is_invalid_credentials_error exc ≡ true
    → fetch_one (failed exc) now m ≡ raised exc
unfolding fetch_one
failed-raised now m exc h = rw (h) refl

first_invalid-fetch_each :
    (answer : ℕ → Answer) (now : ℕ → ℤ) (ms : List ℕ) (m : ℕ) (exc : Failure)
    → Memᴰ m ms
    → answer m ≡ failed exc
    → is_invalid_credentials_error exc ≡ true
    → Raises (fetch_each answer now ms)
unfolding fetch_each
first_invalid-fetch_each answer now [] m exc at e h = elim at [ ]
first_invalid-fetch_each answer now (k ∷ ms) m exc (Memᴰ.head same) e h =
    let this : fetch_one (answer k) (now k) k ≡ raised exc =
      rw (← same, e) (failed-raised (now m) m exc h) in
    rw (this) (invalid_first k exc (fetch_each answer now ms) h)
first_invalid-fetch_each answer now (k ∷ ms) m exc (Memᴰ.tail at) e h =
    invalid_later k _ _ (first_invalid-fetch_each answer now ms m exc at e h)

-- If the request of one of the modes fails on invalid credentials, the fetch raises such a failure,
-- whatever the other modes answer.
pub fetch_all_quotas_invalid :
    (answer : ℕ → Answer) (now : ℕ → ℤ) (mode_ids : Option (List ℕ)) (m : ℕ) (exc : Failure)
    → Memᴰ m (requested mode_ids)
    → answer m ≡ failed exc
    → is_invalid_credentials_error exc ≡ true
    → (first : Failure) × (fetch_all_quotas answer now mode_ids ≡ raised first)
      × (is_invalid_credentials_error first ≡ true)
unfolding fetch_all_quotas first_invalid-fetch_each
fetch_all_quotas_invalid answer now mode_ids m exc at e h =
    let (first, found, invalid) =
      first_invalid-fetch_each answer now (requested mode_ids) m exc at e h in
    (first, rw (fetch_all_quotas, found) refl, invalid)
