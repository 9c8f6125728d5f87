-- ===== src/Tests/AccountRuns.antt =====
-- The theorems on accounts and quotas at concrete records.
use grok2apinew.Prelude.{
  ◌≡◌, refl, true, false, ◌&&◌, ◌||◌, not, some, [], ◌∷◌, arith, length, ltb, leb, ◌+◌,
  if◌then◌else◌,
}
use grok2apinew.Prelude.Int.{pos, ◌+ℤ◌, leb_ℤ}
use grok2apinew.Prelude.Result.{ok}
use grok2apinew.Prelude.Keyed.{lookup, insert}
use grok2apinew.Account.Models.{
  AccountStatus, active, expired, disabled, FeedbackKind, success, forbidden, rate_limited,
  server_error, restore, AccountRecord, int, get, is_deleted, quota_set, to_dict, from_dict,
}
use grok2apinew.Account.Models.RoundTrip.{from_dict-to_dict}
use grok2apinew.Account.Quota.{
  default_quota_set, supports_mode, normalize_quota_set, fresh_window, basic_quota_defaults,
}
use grok2apinew.Account.Quota.Policy.{normalize_quota_set_idem}
use grok2apinew.Account.StateMachine.Events.{default_policy, retry_or, forbidden_strike_key}
use grok2apinew.Account.StateMachine.Status.{
  Standing, status_when, is_active, has_quota, disable_for, cool, restored, next_strike,
  derive_status, is_selectable, transition,
}
use grok2apinew.Account.StateMachine.Apply.{apply_feedback, updated, standing_of}
use grok2apinew.Account.StateMachine.Inversion.{apply_feedback-eq-ok}
use grok2apinew.Account.StateMachine.Cooldown.{rate_limited_cools}
use grok2apinew.Account.StateMachine.Selection.{restore_selectable, rate_limited_selection}
use grok2apinew.Account.StateMachine.Causes.{
  implies, is_expired, is_disabled, any_confirms, any_may_disable, run-implies,
}
use grok2apinew.Account.StateMachine.Lifecycle.{run, is_blocked, run-is_blocked}
use grok2apinew.Account.StateMachine.WellTyped.{is_typed, IsWellTyped, run_total}
use grok2apinew.Account.StateMachine.Strikes.{run_of_forbidden}
use grok2apinew.Tests.Sample.{conversions, account, event}

-- The account after one feedback that leads to the standing `s`.
abbrev after : AccountStatus → FeedbackKind → Standing → AccountRecord
after status kind s =
    updated conversions (account status) (event kind) (default_quota_set "basic") s

quota_set-account :
    (status : AccountStatus) → quota_set (account status) ≡ ok (default_quota_set "basic")
unfolding quota_set
quota_set-account status = from_dict-to_dict (default_quota_set "basic")

applies :
    (status : AccountStatus) (kind : FeedbackKind) (s : Standing)
    → transition conversions default_policy (event kind) (standing_of (account status)) ≡ ok s
    → apply_feedback conversions default_policy (account status) (event kind)
      ≡ ok (after status kind s)
applies status kind s h =
    apply_feedback-eq-ok conversions default_policy (account status) (event kind)
      (default_quota_set "basic") s (quota_set-account status) h

runs :
    (status : AccountStatus) (kind : FeedbackKind) (s : Standing)
    → transition conversions default_policy (event kind) (standing_of (account status)) ≡ ok s
    → run conversions default_policy (account status) (event kind ∷ []) ≡ ok (after status kind s)
unfolding run
runs status kind s h = rw (applies status kind s h) refl

account-IsWellTyped : (status : AccountStatus) → IsWellTyped (account status)
unfolding is_typed lookup
account-IsWellTyped status = record {
  quota = (default_quota_set "basic", quota_set-account status);
  ext = refl;
}

-- What each of the transitions leaves.
abbrev limited : Standing
limited = cool default_policy (event rate_limited) (standing_of (account expired))

limits :
    transition conversions default_policy (event rate_limited) (standing_of (account expired))
    ≡ ok limited
unfolding transition
limits = refl

abbrev renewed : Standing
renewed = restored (standing_of (account disabled))

renews :
    transition conversions default_policy (event restore) (standing_of (account disabled))
    ≡ ok renewed
unfolding transition
renews = refl

abbrev struck_out : Standing
struck_out =
    disable_for "forbidden" (event forbidden)
      (record (standing_of (account active)) { ext = insert forbidden_strike_key (int (pos 1)) [] })

strikes_out :
    transition conversions default_policy (event forbidden) (standing_of (account active))
    ≡ ok struck_out
unfolding transition next_strike lookup
strikes_out = refl

fails :
    transition conversions default_policy (event server_error) (standing_of (account expired))
    ≡ ok (standing_of (account expired))
unfolding transition
fails = refl

serves :
    transition conversions default_policy (event success) (standing_of (account active))
    ≡ ok (standing_of (account active))
unfolding transition
serves = refl

run_total_example :
    (r' : AccountRecord) × (run conversions default_policy
        (account active)
        (event rate_limited ∷ event success ∷ event forbidden ∷ [])
      ≡ ok r')
    × IsWellTyped r'
run_total_example =
    run_total conversions default_policy (account active)
      (event rate_limited ∷ event success ∷ event forbidden ∷ []) (account-IsWellTyped active)

run-is_blocked_example :
    is_blocked (after expired server_error (standing_of (account expired))).status ≡ true
run-is_blocked_example =
    run-is_blocked conversions default_policy (account expired)
      (after expired server_error (standing_of (account expired))) (event server_error ∷ []) refl
      refl (runs expired server_error (standing_of (account expired)) fails)

run_of_forbidden_example : (after active forbidden struck_out).status ≡ (
    if leb 1 (0 + length (event forbidden ∷ [])) && ltb 0 (length (event forbidden ∷ []))
    then disabled
    else active)
run_of_forbidden_example =
    run_of_forbidden conversions default_policy (account active) (after active forbidden struck_out)
      (event forbidden ∷ []) 0 1 refl (unfold lookup in (refl, refl)) refl
      (runs active forbidden struck_out strikes_out)

rate_limited_cools_example :
    derive_status conversions (after expired rate_limited limited) (pos 2_000)
    ≡ ok (status_when (leb_ℤ (pos 1_000 +ℤ retry_or (some (pos 500)) (pos 900_000)) (pos 2_000)))
rate_limited_cools_example =
    rate_limited_cools conversions default_policy (account expired)
      (after expired rate_limited limited) (event rate_limited) (pos 2_000) refl
      (applies expired rate_limited limited limits)

rate_limited_selection_example :
    (is_selectable conversions (after expired rate_limited limited) 1 (pos 2_000) ≡ ok false)
    × (is_selectable conversions (after expired rate_limited limited) 2 (pos 2_000)
        ≡ ok (
            not (is_deleted (account expired))
            && is_active (
                status_when
                  (leb_ℤ (pos 1_000 +ℤ retry_or (some (pos 500)) (pos 900_000)) (pos 2_000)))
            && has_quota (get (default_quota_set "basic") 2)))
rate_limited_selection_example =
    rate_limited_selection conversions default_policy (account expired)
      (after expired rate_limited limited) (event rate_limited) (default_quota_set "basic") 2
      (pos 2_000) refl refl (quota_set-account expired) (λ e. ground arith)
      (applies expired rate_limited limited limits)

restore_selectable_example :
    is_selectable conversions (after disabled restore renewed) 1 (pos 2_000)
    ≡ ok (not (is_deleted (account disabled)) && supports_mode "basic" 1)
restore_selectable_example =
    restore_selectable conversions default_policy (account disabled)
      (after disabled restore renewed) (event restore) 1 (pos 2_000) refl
      (applies disabled restore renewed renews)

run-implies_example :
    let r' = after active forbidden struck_out in
    (implies (is_expired r'.status) (is_expired active || any_confirms (event forbidden ∷ []))
      ≡ true)
    × (implies
          (is_disabled r'.status)
          (is_disabled active || any_may_disable (event forbidden ∷ []))
        ≡ true)
run-implies_example =
    run-implies conversions default_policy (account active) (after active forbidden struck_out)
      (event forbidden ∷ []) (runs active forbidden struck_out strikes_out)

from_dict-to_dict_example :
    from_dict (to_dict (default_quota_set "super")) ≡ ok (default_quota_set "super")
from_dict-to_dict_example = from_dict-to_dict (default_quota_set "super")

-- The default expert window of a basic account.
expert_window :
    get (normalize_quota_set "basic" basic_quota_defaults) 2
    ≡ some (fresh_window (pos 0) (pos 0) (pos 0))
unfolding normalize_quota_set get
expert_window = refl

normalize_quota_set_idem_example :
    normalize_quota_set "super" (normalize_quota_set "super" (default_quota_set "heavy"))
    ≡ normalize_quota_set "super" (default_quota_set "heavy")
normalize_quota_set_idem_example = normalize_quota_set_idem "super" (default_quota_set "heavy")
