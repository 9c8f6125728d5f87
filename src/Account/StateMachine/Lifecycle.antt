-- ===== src/Account/StateMachine/Lifecycle.antt =====
-- The statuses that an account passes through, over any sequence of feedbacks.
use grok2apinew.Prelude.{◌≡◌, refl, Bool, true, false, ◌&&◌, not, List, [], ◌∷◌, arith}
use grok2apinew.Prelude.Result.{Result, ok, ◌>>=◌, >>=-eq-ok}
use grok2apinew.Account.Models.{
  AccountStatus, active, cooling, expired, disabled, FeedbackKind, success, unauthorized, forbidden,
  rate_limited, server_error, disable, delete, restore, AccountRecord,
}
use grok2apinew.Account.StateMachine.Events.{StatePolicy, AccountFeedback}
use grok2apinew.Account.StateMachine.Status.{Conversions, Standing, transition, transition_by_kind}
use grok2apinew.Account.StateMachine.Apply.{apply_feedback, updated, standing_of}
use grok2apinew.Account.StateMachine.Inversion.{apply_feedback-Applied}

-- The diagram: what one feedback may make of a status.
data Moves : AccountStatus → FeedbackKind → AccountStatus → Type 0 where
  unconfirmed : {s : AccountStatus} → Moves s unauthorized s
  confirmed : {s : AccountStatus} → Moves s unauthorized expired
  warned : {s : AccountStatus} → Moves s forbidden s
  struck_out : {s : AccountStatus} → Moves s forbidden disabled
  limited : {s : AccountStatus} → Moves s rate_limited cooling
  served : {s : AccountStatus} → Moves s success s
  reopened : Moves cooling success active
  switched_off : {s : AccountStatus} → Moves s disable disabled
  removed : {s : AccountStatus} → Moves s delete s
  failed : {s : AccountStatus} → Moves s server_error s
  renewed : {s : AccountStatus} → Moves s restore active

ruleset diagram = (
  unconfirmed, confirmed, warned, struck_out, limited, served, reopened, switched_off, removed,
  failed, renewed,
)

transition-Moves :
    (c : Conversions) (k : FeedbackKind) (policy : StatePolicy) (feedback : AccountFeedback)
    (s s' : Standing)
    → transition_by_kind c k policy feedback s ≡ ok s'
    → Moves s.status k s'.status
transition-Moves c k policy feedback s s' h = grind (arith, diagram)

apply_feedback-Moves :
    (c : Conversions) (policy : StatePolicy) (r r' : AccountRecord) (feedback : AccountFeedback)
    → apply_feedback c policy r feedback ≡ ok r'
    → Moves r.status feedback.kind r'.status
unfolding transition updated
apply_feedback-Moves c policy r r' feedback h =
    let a = apply_feedback-Applied c policy r feedback r' h in
    rw a.result
      (transition-Moves c feedback.kind policy feedback (standing_of r) a.standing a.moved)

-- A sequence of feedbacks, each applied to what the one before returned.
unfoldable pub run :
    Conversions → StatePolicy → AccountRecord → List AccountFeedback → Result AccountRecord
run c policy r [] = ok r
run c policy r (feedback ∷ rest) = do r' ← apply_feedback c policy r feedback; run c policy r' rest

abbrev pub is_blocked : AccountStatus → Bool
is_blocked expired = true
is_blocked disabled = true
is_blocked _ = false

abbrev pub reopens : FeedbackKind → Bool
reopens restore = true
reopens rate_limited = true
reopens _ = false

abbrev pub no_reopening : List AccountFeedback → Bool
no_reopening [] = true
no_reopening (feedback ∷ rest) = not (reopens feedback.kind) && no_reopening rest

Moves-is_blocked :
    {s s' : AccountStatus} {k : FeedbackKind}
    → Moves s k s'
    → is_blocked s ≡ true
    → reopens k ≡ false
    → is_blocked s' ≡ true
Moves-is_blocked unconfirmed b n = b
Moves-is_blocked confirmed b n = refl
Moves-is_blocked warned b n = b
Moves-is_blocked struck_out b n = refl
Moves-is_blocked limited b n = cc
Moves-is_blocked served b n = b
Moves-is_blocked reopened b n = b
Moves-is_blocked switched_off b n = refl
Moves-is_blocked removed b n = b
Moves-is_blocked failed b n = b
Moves-is_blocked renewed b n = cc

-- An expired or disabled account stays expired or disabled through any sequence of feedbacks that
-- holds neither a RESTORE nor a RATE_LIMITED.
pub run-is_blocked :
    (c : Conversions) (policy : StatePolicy) (r r' : AccountRecord)
    (feedbacks : List AccountFeedback)
    → is_blocked r.status ≡ true
    → no_reopening feedbacks ≡ true
    → run c policy r feedbacks ≡ ok r'
    → is_blocked r'.status ≡ true
unfolding run
run-is_blocked c policy r r' [] b n h = cc
run-is_blocked c policy r r' (feedback ∷ rest) b n h =
    let (r₁, first, later) = >>=-eq-ok (apply_feedback c policy r feedback) _ h in
    run-is_blocked c policy r₁ r' rest
      (Moves-is_blocked (apply_feedback-Moves c policy r r₁ feedback first) b (ground arith))
      (ground arith) later
