-- ===== src/Catalog/Selection.antt =====
-- app/products/_account_selection.py: the modes to try for a model, and the reservation of an account.
-- `fallback` is the configuration value features.auto_chat_mode_fallback, `ts` the time of the calls, and
-- `refresh` what the directory is after refresh_on_demand, where there is a refresh service.
pub mod Supported
pub mod Served
use grok2apinew.Prelude.{
  ℕ, String, Bool, true, false, ◌&&◌, Option, none, some, List, [], ◌∷◌, ◌==◌, if◌then◌else◌,
}
use grok2apinew.Prelude.Int.{ℤ, pos}
use grok2apinew.Prelude.Result.{Result, ok, ◌>>=◌}
use grok2apinew.Prelude.Float.{Float}
use grok2apinew.Runtime.Selector.{Strategy, quota, random}
use grok2apinew.Runtime.Directory.{Settings, AccountDirectory, AccountLease, reserve}
use grok2apinew.Catalog.Spec.{ModelSpec, mode_int, is_chat, pool_candidates}

abbrev retries : Strategy → ℤ → ℤ
retries random configured = pos 5
retries quota configured = configured

unfoldable pub selection_max_retries : Settings → ℤ → ℤ
selection_max_retries settings configured = retries settings.strategy configured

unfoldable pub mode_candidates : Bool → ModelSpec → List ℕ
unfolding is_chat
mode_candidates fallback spec =
    let primary = mode_int spec.mode_id in
    if is_chat spec && primary == 0 && fallback then primary ∷ 1 ∷ 2 ∷ [] else primary ∷ []

-- What a search for an account gives: the directory, the lease if there is one, and the mode.
abbrev pub Outcome : Type 0 → Type 0
Outcome N = AccountDirectory N × Option AccountLease × ℕ

module _ (f : Float) (settings : Settings) (exclude_tokens : List String) (ts : ℕ) where
  -- _try_reserve
  unfoldable pub try_reserve :
      AccountDirectory f.Number → List ℕ → List ℕ → ℕ → Result (Outcome f.Number)
  try_reserve d pools [] original = ok (d, none, original)
  try_reserve d pools (mode_id ∷ modes) original = do
    (d', found) ← reserve f settings d pools mode_id exclude_tokens [] ts
    elim found [
      | none ↦ try_reserve d' pools modes original
      | some lease ↦ ok (d', some lease, mode_id)
    ]

  abbrev pub again :
      Strategy
      → Option (AccountDirectory f.Number → Result (AccountDirectory f.Number))
      → List ℕ
      → List ℕ
      → ℕ
      → Outcome f.Number
      → Result (Outcome f.Number)
  again strategy refresh pools modes original (d, some lease, mode_id) = ok (d, some lease, mode_id)
  again random refresh pools modes original (d, none, mode_id) = ok (d, none, original)
  again quota none pools modes original (d, none, mode_id) = ok (d, none, original)
  again quota (some refreshed) pools modes original (d, none, mode_id) = do
    d' ← refreshed d
    try_reserve d' pools modes original

  unfoldable pub reserve_account :
      Bool
      → Option (AccountDirectory f.Number → Result (AccountDirectory f.Number))
      → AccountDirectory f.Number
      → ModelSpec
      → Result (Outcome f.Number)
  unfolding mode_candidates pool_candidates
  reserve_account fallback refresh d spec = do
    first ←
        try_reserve d (pool_candidates spec) (mode_candidates fallback spec) (mode_int spec.mode_id)
    again settings.strategy refresh (pool_candidates spec) (mode_candidates fallback spec)
        (mode_int spec.mode_id) first
