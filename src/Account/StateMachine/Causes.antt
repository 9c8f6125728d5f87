-- ===== src/Account/StateMachine/Causes.antt =====
-- What expires or disables an account, over any sequence of feedbacks.
use grok2apinew.Prelude.{◌≡◌, Bool, true, false, ◌||◌, not, List, [], ◌∷◌, arith}
use grok2apinew.Prelude.Result.{ok, >>=-eq-ok}
use grok2apinew.Account.Models.{
  AccountStatus, expired, disabled, FeedbackKind, unauthorized, forbidden, disable, AccountRecord,
}
use grok2apinew.Account.StateMachine.Events.{StatePolicy, AccountFeedback}
use grok2apinew.Account.StateMachine.Status.{Conversions, Standing, transition, transition_by_kind}
use grok2apinew.Account.StateMachine.Apply.{apply_feedback, updated, standing_of}
use grok2apinew.Account.StateMachine.Inversion.{apply_feedback-Applied}
use grok2apinew.Account.StateMachine.Lifecycle.{run}

abbrev pub is_expired : AccountStatus → Bool
is_expired expired = true
is_expired _ = false

abbrev pub is_disabled : AccountStatus → Bool
is_disabled disabled = true
is_disabled _ = false

-- A 401 that was confirmed to be an expired token, by the kind of the feedback.
abbrev pub confirms : FeedbackKind → Bool → Bool
confirms unauthorized confirmed = confirmed
confirms _ confirmed = false

-- The operator's DISABLE, or a 403.
abbrev pub may_disable : FeedbackKind → Bool
may_disable disable = true
may_disable forbidden = true
may_disable _ = false

abbrev pub any_confirms : List AccountFeedback → Bool
any_confirms [] = false
any_confirms (feedback ∷ rest) =
    confirms feedback.kind feedback.confirm_expired || any_confirms rest

abbrev pub any_may_disable : List AccountFeedback → Bool
any_may_disable [] = false
any_may_disable (feedback ∷ rest) = may_disable feedback.kind || any_may_disable rest

abbrev pub implies : Bool → Bool → Bool
implies a b = not a || b

transition-implies :
    (c : Conversions) (k : FeedbackKind) (policy : StatePolicy) (feedback : AccountFeedback)
    (s s' : Standing)
    → transition_by_kind c k policy feedback s ≡ ok s'
    → (implies (is_expired s'.status) (is_expired s.status || confirms k feedback.confirm_expired)
        ≡ true)
      × (implies (is_disabled s'.status) (is_disabled s.status || may_disable k) ≡ true)
transition-implies c k policy feedback s s' h = grind arith

apply_feedback-implies :
    (c : Conversions) (policy : StatePolicy) (r r' : AccountRecord) (feedback : AccountFeedback)
    → apply_feedback c policy r feedback ≡ ok r'
    → (implies
          (is_expired r'.status)
          (is_expired r.status || confirms feedback.kind feedback.confirm_expired)
        ≡ true)
      × (implies (is_disabled r'.status) (is_disabled r.status || may_disable feedback.kind) ≡ true)
unfolding transition updated
apply_feedback-implies c policy r r' feedback h =
    let a = apply_feedback-Applied c policy r feedback r' h in
    rw a.result
      (transition-implies c feedback.kind policy feedback (standing_of r) a.standing a.moved)

implies_trans :
    (a b b' c d : Bool)
    → implies b (a || c) ≡ true
    → implies b' (b || d) ≡ true
    → implies b' (a || (c || d)) ≡ true
implies_trans a b b' c d h k = ground arith

-- An account is expired after a sequence of feedbacks only if it was before or one of them confirmed that
-- its token has expired; it is disabled only if it was before or one of them was a DISABLE or a 403.
pub run-implies :
    (c : Conversions) (policy : StatePolicy) (r r' : AccountRecord)
    (feedbacks : List AccountFeedback)
    → run c policy r feedbacks ≡ ok r'
    → (implies (is_expired r'.status) (is_expired r.status || any_confirms feedbacks) ≡ true)
      × (implies (is_disabled r'.status) (is_disabled r.status || any_may_disable feedbacks) ≡ true)
unfolding run
run-implies c policy r r' [] h = ground arith
run-implies c policy r r' (feedback ∷ rest) h =
    let (r₁, first, later) = >>=-eq-ok (apply_feedback c policy r feedback) _ h in
    let (e₁, d₁) = apply_feedback-implies c policy r r₁ feedback first in
    let (e₂, d₂) = run-implies c policy r₁ r' rest later in
    (
      implies_trans (is_expired r.status) (is_expired r₁.status) (is_expired r'.status)
          (confirms feedback.kind feedback.confirm_expired) (any_confirms rest) e₁ e₂,
      implies_trans (is_disabled r.status) (is_disabled r₁.status) (is_disabled r'.status)
          (may_disable feedback.kind) (any_may_disable rest) d₁ d₂,
    )
