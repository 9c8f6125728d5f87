-- ===== src/Account/StateMachine/Cooldown.antt =====
-- When an account that was rate limited is available again.
use grok2apinew.Prelude.{◌≡◌, refl, sym, ◌∙◌, arith}
use grok2apinew.Prelude.Int.{ℤ, ◌+ℤ◌, leb_ℤ}
use grok2apinew.Prelude.Result.{ok}
use grok2apinew.Prelude.Keyed.{keyed_laws}
use grok2apinew.Account.Models.{rate_limited, success, AccountRecord, AccountQuotaSet, cooling, int}
use grok2apinew.Account.StateMachine.Events.{
  StatePolicy, AccountFeedback, retry_or, ext_get, cooldown_until_key,
}
use grok2apinew.Account.StateMachine.Status.{
  Conversions, Standing, status_when, cool, derive_by_status, cooldown_over, derive_status,
  transition,
}
use grok2apinew.Account.StateMachine.Apply.{apply_feedback, updated, standing_of}
use grok2apinew.Account.StateMachine.Inversion.{apply_feedback-Applied, Applied-updated}

-- The key that holds the end of the cooldown, after a rate limit.
cooldown_until-cool :
    (policy : StatePolicy) (feedback : AccountFeedback) (s : Standing)
    → ext_get cooldown_until_key (cool policy feedback s).ext
      ≡ int (feedback.at +ℤ retry_or feedback.retry_after_ms policy.default_cooling_ms)
unfolding ext_get
cooldown_until-cool policy feedback s = simp keyed_laws

pub transition-rate_limited :
    (c : Conversions) (policy : StatePolicy) (feedback : AccountFeedback) (s : Standing)
    → feedback.kind ≡ rate_limited
    → transition c policy feedback s ≡ ok (cool policy feedback s)
unfolding transition
transition-rate_limited c policy feedback s k = rw k

derive_status-updated :
    (c : Conversions) (r : AccountRecord) (feedback : AccountFeedback) (qs : AccountQuotaSet)
    (s : Standing) (now : ℤ)
    → derive_status c (updated c r feedback qs s) now ≡ derive_by_status c s.status s.ext now
unfolding derive_status updated
derive_status-updated c r feedback qs s now = refl

derive_status-standing :
    (c : Conversions) (r : AccountRecord) (now : ℤ)
    → derive_status c r now ≡ derive_by_status c r.status r.ext now
unfolding derive_status
derive_status-standing c r now = refl

pub derive-cool :
    (c : Conversions) (policy : StatePolicy) (feedback : AccountFeedback) (s : Standing) (now : ℤ)
    → derive_by_status c cooling (cool policy feedback s).ext now
      ≡ ok (
          status_when
            (leb_ℤ (feedback.at +ℤ retry_or feedback.retry_after_ms policy.default_cooling_ms) now))
unfolding cooldown_over
derive-cool c policy feedback s now = rw cooldown_until-cool

-- A rate-limited account, whatever its status was, is cooling until the end of its cooldown and
-- active from then on. The cooldown is the time that upstream asked for, or else the policy's.
pub rate_limited_cools :
    (c : Conversions) (policy : StatePolicy) (r r' : AccountRecord) (feedback : AccountFeedback)
    (now : ℤ)
    → feedback.kind ≡ rate_limited
    → apply_feedback c policy r feedback ≡ ok r'
    → derive_status c r' now
      ≡ ok (
          status_when
            (leb_ℤ (feedback.at +ℤ retry_or feedback.retry_after_ms policy.default_cooling_ms) now))
rate_limited_cools c policy r r' feedback now k h =
    let a = apply_feedback-Applied c policy r feedback r' h in
    let moved = transition-rate_limited c policy feedback (standing_of r) k in
    rw (Applied-updated a _ moved, derive_status-updated)
      (derive-cool c policy feedback (standing_of r) now)

ruleset recovery = (cooldown_over, ext_get)

transition-success_steady :
    (c : Conversions) (policy : StatePolicy) (feedback : AccountFeedback) (s s' : Standing)
    → feedback.kind ≡ success
    → transition c policy feedback s ≡ ok s'
    → derive_by_status c s'.status s'.ext feedback.at
      ≡ derive_by_status c s.status s.ext feedback.at
unfolding transition
transition-success_steady c policy feedback s s' k h = ground arith

-- A success never changes the effective status at its own time.
pub success_steady :
    (c : Conversions) (policy : StatePolicy) (r r' : AccountRecord) (feedback : AccountFeedback)
    → feedback.kind ≡ success
    → apply_feedback c policy r feedback ≡ ok r'
    → derive_status c r' feedback.at ≡ derive_status c r feedback.at
success_steady c policy r r' feedback k h =
    let a = apply_feedback-Applied c policy r feedback r' h in
    rw (a.result, derive_status-updated)
      (transition-success_steady c policy feedback (standing_of r) a.standing k a.moved
        ∙ sym (derive_status-standing c r feedback.at))
