-- ===== src/Runtime/Directory/Feedback.antt =====
-- app/dataplane/account/__init__.py: AccountDirectory.feedback. `ts` is the time of the call, `clock` what
-- a second reading of the clock gives.
use grok2apinew.Prelude.{ℕ, ◌/◌, String, Option, none, some}
use grok2apinew.Prelude.Int.{ℤ}
use grok2apinew.Prelude.Result.{Result, ok, ◌>>=◌}
use grok2apinew.Prelude.SetMap.{String_eq}
use grok2apinew.Prelude.Float.{Float}
use grok2apinew.Account.Models.{
  FeedbackKind, success, unauthorized, forbidden, rate_limited, server_error,
}
use grok2apinew.Runtime.Slot.{expired}
use grok2apinew.Runtime.Table.{Table, get_pool_id}
use grok2apinew.Runtime.Feedback.{
  apply_success_quota, apply_success_random, apply_rate_limited_quota, apply_rate_limited_random,
  apply_auth_failure, apply_forbidden, apply_server_error, apply_status_change, apply_quota_update,
  update_last_fail,
}
use grok2apinew.Runtime.Selector.{Strategy, quota, random}
use grok2apinew.Runtime.Directory.{Settings, AccountDirectory, pool_cooling_sec}

module _ (f : Float) (settings : Settings) where
  abbrev pub success_by : Strategy → Table f.Number → ℕ → ℕ → Result (Table f.Number)
  success_by random t idx mode_id = apply_success_random f t idx
  success_by quota t idx mode_id = apply_success_quota f t idx mode_id

  abbrev pub rate_limited_by : Strategy → Table f.Number → ℕ → ℕ → ℤ → ℕ → Result (Table f.Number)
  rate_limited_by random t idx mode_id cooling_sec clock =
      apply_rate_limited_random f t idx cooling_sec clock
  rate_limited_by quota t idx mode_id cooling_sec clock =
      apply_rate_limited_quota f t idx mode_id cooling_sec clock

  -- The branches of feedback on its kind.
  unfoldable pub feedback_by_kind :
      FeedbackKind → Table f.Number → ℕ → ℕ → ℕ → ℕ → Result (Table f.Number)
  feedback_by_kind success t idx mode_id ts clock = success_by settings.strategy t idx mode_id
  feedback_by_kind rate_limited t idx mode_id ts clock = do
    pool_id ← get_pool_id t idx
    limited ←
        rate_limited_by settings.strategy t idx mode_id (pool_cooling_sec settings pool_id) clock
    update_last_fail limited idx ts
  feedback_by_kind unauthorized t idx mode_id ts clock = do
    weaker ← apply_auth_failure f t idx
    failed ← update_last_fail weaker idx ts
    apply_status_change failed idx expired
  feedback_by_kind forbidden t idx mode_id ts clock = do
    weaker ← apply_forbidden f t idx
    update_last_fail weaker idx ts
  feedback_by_kind server_error t idx mode_id ts clock = do
    weaker ← apply_server_error f t idx
    update_last_fail weaker idx ts
  feedback_by_kind _ t idx mode_id ts clock = ok t

  -- The numbers that upstream sent, which only the quota strategy reads.
  abbrev pub numbers_by :
      Strategy → Option ℤ → Option ℕ → Table f.Number → ℕ → ℕ → Result (Table f.Number)
  numbers_by quota (some remaining) (some reset_at_ms) t idx mode_id =
      apply_quota_update t idx mode_id remaining (reset_at_ms / 1_000)
  numbers_by _ _ _ t idx mode_id = ok t

  unfoldable pub feedback_at :
      Table f.Number → ℕ → FeedbackKind → ℕ → Option ℤ → Option ℕ → ℕ → ℕ → Result (Table f.Number)
  feedback_at t idx kind mode_id remaining reset_at_ms ts clock = do
    t' ← feedback_by_kind kind t idx mode_id ts clock
    numbers_by settings.strategy remaining reset_at_ms t' idx mode_id

  abbrev feedback_known :
      Option ℕ
      → Table f.Number
      → AccountDirectory f.Number
      → FeedbackKind
      → ℕ
      → Option ℤ
      → Option ℕ
      → ℕ
      → ℕ
      → Result (AccountDirectory f.Number)
  feedback_known none t d kind mode_id remaining reset_at_ms ts clock = ok d
  feedback_known (some idx) t d kind mode_id remaining reset_at_ms ts clock = do
    t' ← feedback_at t idx kind mode_id remaining reset_at_ms ts clock
    ok (record d { table = some t' })

  abbrev feedback_in :
      Option (Table f.Number)
      → AccountDirectory f.Number
      → String
      → FeedbackKind
      → ℕ
      → Option ℤ
      → Option ℕ
      → ℕ
      → ℕ
      → Result (AccountDirectory f.Number)
  feedback_in none d token kind mode_id remaining reset_at_ms ts clock = ok d
  feedback_in (some t) d token kind mode_id remaining reset_at_ms ts clock =
      feedback_known (t.idx_by_token token) t d kind mode_id remaining reset_at_ms ts clock

  unfoldable pub feedback :
      AccountDirectory f.Number
      → String
      → FeedbackKind
      → ℕ
      → Option ℤ
      → Option ℕ
      → ℕ
      → ℕ
      → Result (AccountDirectory f.Number)
  feedback d token kind mode_id remaining reset_at_ms ts clock =
      feedback_in d.table d token kind mode_id remaining reset_at_ms ts clock
