-- ===== src/Runtime/Directory/Steps.antt =====
-- Each step of app/dataplane/account/__init__.py keeps the selection indexes consistent.
use grok2apinew.Prelude.{ℕ, ◌≤◌, ◌≡◌, refl, Option, none, some, ◌/◌}
use grok2apinew.Prelude.Int.{ℤ}
use grok2apinew.Prelude.Result.{Result, ok, ◌>>=◌, >>=-eq-ok}
use grok2apinew.Prelude.Float.{Float}
use grok2apinew.Account.Models.{
  FeedbackKind, success, unauthorized, forbidden, rate_limited, server_error, disable, delete,
  restore,
}
use grok2apinew.Runtime.Table.{Table, get_pool_id}
use grok2apinew.Runtime.Table.Writers.{IsConsistent}
use grok2apinew.Runtime.Feedback.{
  apply_success_quota, apply_success_random, apply_rate_limited_quota, apply_rate_limited_random,
  apply_auth_failure, apply_forbidden, apply_server_error, adjust_health, increment_inflight,
  decrement_inflight, update_last_use, update_last_fail,
}
use grok2apinew.Runtime.Feedback.Consistent.{
  modify-IsConsistent, apply_status_change-IsConsistent, apply_quota_update-IsConsistent,
}
use grok2apinew.Runtime.Selector.{Strategy, quota, random}
use grok2apinew.Runtime.Directory.{Settings}
use grok2apinew.Runtime.Directory.Feedback.{
  feedback_by_kind, feedback_at, success_by, rate_limited_by, numbers_by,
}

module _ {N : Type 0} where
  pub increment_inflight-IsConsistent :
      (t t' : Table N) (idx : ℕ)
      → increment_inflight t idx ≡ ok t'
      → IsConsistent t
      → IsConsistent t'
  unfolding increment_inflight
  increment_inflight-IsConsistent t t' idx e h =
      modify-IsConsistent t t' idx _ (λ s. record { pool = refl; status = refl; window = refl }) e h

  pub decrement_inflight-IsConsistent :
      (t t' : Table N) (idx : ℕ)
      → decrement_inflight t idx ≡ ok t'
      → IsConsistent t
      → IsConsistent t'
  unfolding decrement_inflight
  decrement_inflight-IsConsistent t t' idx e h =
      modify-IsConsistent t t' idx _ (λ s. record { pool = refl; status = refl; window = refl }) e h

  pub update_last_use-IsConsistent :
      (t t' : Table N) (idx now : ℕ)
      → update_last_use t idx now ≡ ok t'
      → IsConsistent t
      → IsConsistent t'
  unfolding update_last_use
  update_last_use-IsConsistent t t' idx now e h =
      modify-IsConsistent t t' idx _ (λ s. record { pool = refl; status = refl; window = refl }) e h

  pub update_last_fail-IsConsistent :
      (t t' : Table N) (idx now : ℕ)
      → update_last_fail t idx now ≡ ok t'
      → IsConsistent t
      → IsConsistent t'
  unfolding update_last_fail
  update_last_fail-IsConsistent t t' idx now e h =
      modify-IsConsistent t t' idx _ (λ s. record { pool = refl; status = refl; window = refl }) e h

module _ (f : Float) where
  adjust_health-IsConsistent :
      (t t' : Table f.Number) (idx : ℕ) (factor : f.Number)
      → adjust_health f t idx factor ≡ ok t'
      → IsConsistent t
      → IsConsistent t'
  unfolding adjust_health
  adjust_health-IsConsistent t t' idx factor e h =
      modify-IsConsistent t t' idx _ (λ s. record { pool = refl; status = refl; window = refl }) e h

  success-IsConsistent :
      (strategy : Strategy) (settings : Settings) (t t' : Table f.Number) (idx m : ℕ)
      → success_by f settings strategy t idx m ≡ ok t'
      → IsConsistent t
      → IsConsistent t'
  unfolding apply_success_quota apply_success_random
  success-IsConsistent quota settings t t' idx m e h =
      modify-IsConsistent t t' idx _ (λ s. record { pool = refl; status = refl; window = refl }) e h
  success-IsConsistent random settings t t' idx m e h =
      modify-IsConsistent t t' idx _ (λ s. record { pool = refl; status = refl; window = refl }) e h

  rate_limited-IsConsistent :
      (strategy : Strategy) (settings : Settings) (t t' : Table f.Number) (idx m : ℕ) (sec : ℤ)
      (clock : ℕ)
      → rate_limited_by f settings strategy t idx m sec clock ≡ ok t'
      → IsConsistent t
      → IsConsistent t'
  unfolding apply_rate_limited_quota apply_rate_limited_random
  rate_limited-IsConsistent quota settings t t' idx m sec clock e h =
      modify-IsConsistent t t' idx _ (λ s. record { pool = refl; status = refl; window = refl }) e h
  rate_limited-IsConsistent random settings t t' idx m sec clock e h =
      modify-IsConsistent t t' idx _ (λ s. record { pool = refl; status = refl; window = refl }) e h

  -- The two steps that three of the branches share.
  weaken-IsConsistent :
      (m : Result (Table f.Number)) (t t' : Table f.Number) (idx ts : ℕ)
      → (m >>= λ weaker. update_last_fail weaker idx ts) ≡ ok t'
      → ((t₁ : Table f.Number) → m ≡ ok t₁ → IsConsistent t₁)
      → IsConsistent t'
  weaken-IsConsistent m t t' idx ts e keep =
      let (t₁, first, last) = >>=-eq-ok m _ e in
      update_last_fail-IsConsistent t₁ t' idx ts last (keep t₁ first)

  same_table : (t t' : Table f.Number) → ok t ≡ ok t' → IsConsistent t → IsConsistent t'
  same_table t t' e h = let same : t ≡ t' = cc in rw (← same) h

  module _ (settings : Settings) where
    pub feedback_by_kind-IsConsistent :
        (kind : FeedbackKind) (t t' : Table f.Number) (idx m ts clock : ℕ)
        → feedback_by_kind f settings kind t idx m ts clock ≡ ok t'
        → IsConsistent t
        → IsConsistent t'
    unfolding feedback_by_kind apply_auth_failure apply_forbidden apply_server_error
    feedback_by_kind-IsConsistent success t t' idx m ts clock e h =
        success-IsConsistent settings.strategy settings t t' idx m e h
    feedback_by_kind-IsConsistent rate_limited t t' idx m ts clock e h =
        let (pool_id, _, rest) = >>=-eq-ok (get_pool_id t idx) _ e in
        weaken-IsConsistent _ t t' idx ts rest (λ t₁ first.
          rate_limited-IsConsistent settings.strategy settings t t₁ idx m _ clock first h)
    feedback_by_kind-IsConsistent unauthorized t t' idx m ts clock e h =
        let (t₁, first, rest) = >>=-eq-ok (apply_auth_failure f t idx) _ e in
        let (t₂, second, last) = >>=-eq-ok (update_last_fail t₁ idx ts) _ rest in
        apply_status_change-IsConsistent t₂ t' idx _ refl last (
          update_last_fail-IsConsistent t₁ t₂ idx ts second
            (adjust_health-IsConsistent t t₁ idx _ first h))
    feedback_by_kind-IsConsistent forbidden t t' idx m ts clock e h =
        weaken-IsConsistent _ t t' idx ts e
          (λ t₁ first. adjust_health-IsConsistent t t₁ idx _ first h)
    feedback_by_kind-IsConsistent server_error t t' idx m ts clock e h =
        weaken-IsConsistent _ t t' idx ts e
          (λ t₁ first. adjust_health-IsConsistent t t₁ idx _ first h)
    feedback_by_kind-IsConsistent disable t t' idx m ts clock e h = same_table t t' e h
    feedback_by_kind-IsConsistent delete t t' idx m ts clock e h = same_table t t' e h
    feedback_by_kind-IsConsistent restore t t' idx m ts clock e h = same_table t t' e h

    numbers-IsConsistent :
        (strategy : Strategy) (remaining : Option ℤ) (reset_at_ms : Option ℕ)
        (t t' : Table f.Number) (idx m : ℕ)
        → m ≤ 4
        → numbers_by f settings strategy remaining reset_at_ms t idx m ≡ ok t'
        → IsConsistent t
        → IsConsistent t'
    numbers-IsConsistent quota (some n) (some ms) t t' idx m le e h =
        apply_quota_update-IsConsistent t t' idx m n (ms / 1_000) le e h
    numbers-IsConsistent quota (some n) none t t' idx m le e h = same_table t t' e h
    numbers-IsConsistent quota none ms t t' idx m le e h = same_table t t' e h
    numbers-IsConsistent random n ms t t' idx m le e h = same_table t t' e h

    -- Feedback of any kind, with or without upstream's numbers.
    pub feedback_at-IsConsistent :
        (t t' : Table f.Number) (idx m ts clock : ℕ) (kind : FeedbackKind) (remaining : Option ℤ)
        (reset_at_ms : Option ℕ)
        → m ≤ 4
        → feedback_at f settings t idx kind m remaining reset_at_ms ts clock ≡ ok t'
        → IsConsistent t
        → IsConsistent t'
    unfolding feedback_at
    feedback_at-IsConsistent t t' idx m ts clock kind remaining reset_at_ms le e h =
        let (t₁, first, last) = >>=-eq-ok (feedback_by_kind f settings kind t idx m ts clock) _ e in
        numbers-IsConsistent settings.strategy remaining reset_at_ms t₁ t' idx m le last
          (feedback_by_kind-IsConsistent kind t t₁ idx m ts clock first h)
