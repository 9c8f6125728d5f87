-- ===== src/Account/StateMachine/Strikes.antt =====
-- 403 responses: how many strikes disable an account.
use grok2apinew.Prelude.{
  ℕ, ◌+◌, ◌≡◌, Bool, true, false, Option, some, List, [], ◌∷◌, arith, length, ltb, leb, ◌&&◌,
  if◌then◌else◌,
}
use grok2apinew.Prelude.Int.{pos, ◌+ℤ◌, leb_ℤ}
use grok2apinew.Prelude.Result.{ok, >>=-eq-ok}
use grok2apinew.Prelude.Keyed.{lookup, insert, keyed_laws}
use grok2apinew.Account.Models.{forbidden, disabled, AccountRecord, Value, int}
use grok2apinew.Account.StateMachine.Events.{StatePolicy, AccountFeedback, forbidden_strike_key}
use grok2apinew.Account.StateMachine.Status.{Conversions, Standing, transition, disable_for}
use grok2apinew.Account.StateMachine.Apply.{apply_feedback, updated, standing_of}
use grok2apinew.Account.StateMachine.Inversion.{apply_feedback-Applied, Applied-updated}
use grok2apinew.Account.StateMachine.Lifecycle.{run}
use grok2apinew.Account.StateMachine.WellTyped.{is_int_or_missing, strike_number, next_strike-ok}

-- `n` strikes are on record; none are where the key is missing.
abbrev pub StrikesAre : ℕ → Option Value → Type 0
StrikesAre n found = (strike_number found ≡ pos (n + 1)) × (is_int_or_missing found ≡ true)

abbrev pub all_forbidden : List AccountFeedback → Bool
all_forbidden [] = true
all_forbidden (feedback ∷ rest) = elim feedback.kind [ forbidden ↦ all_forbidden rest | _ ↦ false ]

transition-forbidden :
    (c : Conversions) (policy : StatePolicy) (feedback : AccountFeedback) (s : Standing) (n : ℕ)
    → feedback.kind ≡ forbidden
    → StrikesAre n (lookup forbidden_strike_key s.ext)
    → let struck : Standing = record s {
      ext = insert forbidden_strike_key (int (pos (n + 1))) s.ext;
    } in
      transition c policy feedback s
      ≡ ok (
          if leb_ℤ policy.forbidden_strikes (pos (n + 1))
          then disable_for "forbidden" feedback struck
          else struck)
unfolding transition
transition-forbidden c policy feedback s n k h = rw k (rw (next_strike-ok c s.ext h.1) (rw h.0))

struck_strikes :
    (feedback : AccountFeedback) (s : Standing) (n : ℕ) (b : Bool)
    → let struck : Standing = record s { ext = insert forbidden_strike_key (int (pos n)) s.ext } in
      lookup forbidden_strike_key
        (if b then disable_for "forbidden" feedback struck else struck).ext
      ≡ some (int (pos n))
struck_strikes feedback s n true = simp keyed_laws
struck_strikes feedback s n false = simp keyed_laws

one_more : (n : ℕ) → StrikesAre (n + 1) (some (int (pos (n + 1))))
unfolding ◌+ℤ◌
one_more n = ground arith

-- One 403 adds a strike, and disables the account if that reaches the policy's number.
apply_feedback-forbidden :
    (c : Conversions) (policy : StatePolicy) (r r' : AccountRecord) (feedback : AccountFeedback)
    (n : ℕ)
    → feedback.kind ≡ forbidden
    → StrikesAre n (lookup forbidden_strike_key r.ext)
    → apply_feedback c policy r feedback ≡ ok r'
    → StrikesAre (n + 1) (lookup forbidden_strike_key r'.ext)
      × (r'.status ≡ (if leb_ℤ policy.forbidden_strikes (pos (n + 1)) then disabled else r.status))
unfolding updated
apply_feedback-forbidden c policy r r' feedback n k h e =
    let a = apply_feedback-Applied c policy r feedback r' e in
    let moved = transition-forbidden c policy feedback (standing_of r) n k h in
    rw (Applied-updated a _ moved) (
      rw
          (struck_strikes feedback (standing_of r) (n + 1)
            (leb_ℤ policy.forbidden_strikes (pos (n + 1))))
          (one_more n),
      ground arith,
    )

-- A run of 403 responses, from any number of strikes on record: the account is disabled if there is a
-- response and the strikes and responses together reach the policy's number, and otherwise it keeps
-- its status.
pub run_of_forbidden :
    (c : Conversions) (policy : StatePolicy) (r r' : AccountRecord)
    (feedbacks : List AccountFeedback) (n t : ℕ)
    → policy.forbidden_strikes ≡ pos t
    → StrikesAre n (lookup forbidden_strike_key r.ext)
    → all_forbidden feedbacks ≡ true
    → run c policy r feedbacks ≡ ok r'
    → r'.status
      ≡ (if leb t (n + length feedbacks) && ltb 0 (length feedbacks) then disabled else r.status)
unfolding run
run_of_forbidden c policy r r' [] n t p h all e = ground arith
run_of_forbidden c policy r r' (feedback ∷ rest) n t p h all e =
    let (r₁, first, later) = >>=-eq-ok (apply_feedback c policy r feedback) _ e in
    let (more, now) = apply_feedback-forbidden c policy r r₁ feedback n (ground arith) h first in
    let then_on = run_of_forbidden c policy r₁ r' rest (n + 1) t p more (ground arith) later in
    rw then_on (rw now (rw p (ground arith)))
