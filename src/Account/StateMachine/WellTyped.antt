-- ===== src/Account/StateMachine/WellTyped.antt =====
-- Feedback never raises on a record whose stored values have their types, and keeps them so. It
-- touches no key of `ext` but its own.

use grok2apinew.Prelude.{
  ◌≡◌, refl, Bool, true, false, ◌&&◌, Option, none, some, List, [], ◌∷◌, ◌∙◌, String, arith,
}
use grok2apinew.Prelude.Int.{ℤ, pos, ◌+ℤ◌}
use grok2apinew.Prelude.Result.{Result, ok, err}
use grok2apinew.Prelude.Keyed.{Keyed, lookup, insert, keyed_laws}
use grok2apinew.Account.Models.{
  FeedbackKind, success, unauthorized, forbidden, rate_limited, server_error, disable, delete,
  restore, AccountRecord, AccountQuotaSet, Value, int, quota_set,
}
use grok2apinew.Account.StateMachine.Events.{
  StatePolicy, AccountFeedback, cooldown_until_key, forbidden_strike_key, ext_get, pop_all,
}
use grok2apinew.Account.StateMachine.Status.{
  Conversions, Standing, transition, transition_by_kind, next_strike, cooldown_over, cool, warmed,
  expire, disable_for, strike, recover,
}
use grok2apinew.Account.StateMachine.Apply.{apply_feedback, updated, standing_of}
use grok2apinew.Account.StateMachine.Selection.{quota_set-updated}
use grok2apinew.Account.StateMachine.Inversion.{apply_feedback-eq-ok}
use grok2apinew.Account.StateMachine.Lifecycle.{run}

abbrev pub is_int_or_missing : Option Value → Bool
is_int_or_missing none = true
is_int_or_missing (some (int n)) = true
is_int_or_missing (some v) = false

-- The two keys that the state machine reads hold integers, where they are there.
unfoldable pub is_typed : Keyed Value → Bool
is_typed ext =
    is_int_or_missing (lookup cooldown_until_key ext)
    && is_int_or_missing (lookup forbidden_strike_key ext)

-- The call returned, with a typed extension.
abbrev returns_typed : Result Standing → Bool
returns_typed (ok s) = is_typed s.ext
returns_typed (err e) = false

pop_all-typed : (ext : Keyed Value) → is_typed (pop_all ext) ≡ true
unfolding pop_all is_typed
pop_all-typed ext = simp keyed_laws

cool-typed :
    (policy : StatePolicy) (feedback : AccountFeedback) (s : Standing)
    → is_typed s.ext ≡ true
    → is_typed (cool policy feedback s).ext ≡ true
unfolding is_typed
cool-typed policy feedback s h = simp keyed_laws (ground arith)

warmed-typed : (s : Standing) → is_typed (warmed s).ext ≡ true
unfolding is_typed
warmed-typed s = simp keyed_laws

expire-typed :
    (feedback : AccountFeedback) (s : Standing) → is_typed (expire feedback s).ext ≡ is_typed s.ext
unfolding is_typed
expire-typed feedback s = simp keyed_laws

disable_for-typed :
    (fallback : String) (feedback : AccountFeedback) (s : Standing)
    → is_typed (disable_for fallback feedback s).ext ≡ is_typed s.ext
unfolding is_typed
disable_for-typed fallback feedback s = simp keyed_laws

struck-typed :
    (n : ℤ) (ext : Keyed Value)
    → is_typed ext ≡ true
    → is_typed (insert forbidden_strike_key (int n) ext) ≡ true
unfolding is_typed
struck-typed n ext h = simp keyed_laws (ground arith)

-- The number that the next strike is written with.
abbrev pub strike_number : Option Value → ℤ
strike_number none = pos 1
strike_number (some (int n)) = n +ℤ pos 1
strike_number (some v) = pos 0

pub next_strike-ok :
    (c : Conversions) (ext : Keyed Value)
    → is_int_or_missing (lookup forbidden_strike_key ext) ≡ true
    → next_strike c ext ≡ ok (strike_number (lookup forbidden_strike_key ext))
unfolding next_strike
next_strike-ok c ext h = ground arith

strike-typed :
    (c : Conversions) (policy : StatePolicy) (feedback : AccountFeedback) (s : Standing)
    → is_typed s.ext ≡ true
    → returns_typed (strike c policy feedback s) ≡ true
strike-typed c policy feedback s h =
    let n = strike_number (lookup forbidden_strike_key s.ext) in
    rw (next_strike-ok c s.ext (unfold is_typed in ground arith)) (
      ground (
        arith,
        struck-typed n s.ext h,
        disable_for-typed "forbidden" feedback
            (record s { ext = insert forbidden_strike_key (int n) s.ext }),
      ))

recover-typed :
    (c : Conversions) (feedback : AccountFeedback) (s : Standing)
    → is_typed s.ext ≡ true
    → returns_typed (recover c s.status feedback s) ≡ true
unfolding cooldown_over ext_get is_typed
recover-typed c feedback s h = ground (arith, warmed-typed s)

transition-typed :
    (c : Conversions) (k : FeedbackKind) (policy : StatePolicy) (feedback : AccountFeedback)
    (s : Standing)
    → is_typed s.ext ≡ true
    → returns_typed (transition_by_kind c k policy feedback s) ≡ true
transition-typed c unauthorized policy feedback s h = ground (arith, expire-typed feedback s)
transition-typed c forbidden policy feedback s h = strike-typed c policy feedback s h
transition-typed c rate_limited policy feedback s h = cool-typed policy feedback s h
transition-typed c success policy feedback s h = recover-typed c feedback s h
transition-typed c disable policy feedback s h =
    disable_for-typed "operator_disabled" feedback s ∙ h
transition-typed c delete policy feedback s h = h
transition-typed c server_error policy feedback s h = h
transition-typed c restore policy feedback s h = pop_all-typed s.ext

-- A record that the state machine can read.
pub record IsWellTyped (r : AccountRecord) : Type 0 where
  pub quota : (qs : AccountQuotaSet) × (quota_set r ≡ ok qs)
  pub ext : is_typed r.ext ≡ true

of_returns_typed :
    (m : Result Standing)
    → returns_typed m ≡ true
    → (s : Standing) × (m ≡ ok s) × (is_typed s.ext ≡ true)
of_returns_typed (ok s) h = (s, refl, h)
of_returns_typed (err e) h = cc

-- Feedback on a readable record returns a readable record.
pub apply_feedback-IsWellTyped :
    (c : Conversions) (policy : StatePolicy) (r : AccountRecord) (feedback : AccountFeedback)
    → IsWellTyped r
    → (r' : AccountRecord) × (apply_feedback c policy r feedback ≡ ok r') × IsWellTyped r'
apply_feedback-IsWellTyped c policy r feedback h =
    let (qs, read) = h.quota in
    let (s, moved, typed) = of_returns_typed (transition c policy feedback (standing_of r)) (
      unfold transition in
      transition-typed c feedback.kind policy feedback (standing_of r) h.ext) in
    (
      updated c r feedback qs s,
      apply_feedback-eq-ok c policy r feedback qs s read moved,
      record { quota = (_, quota_set-updated c r feedback qs s); ext = unfold updated in typed },
    )

-- No sequence of feedbacks on a readable record raises, and the record that it ends in is readable.
pub run_total :
    (c : Conversions) (policy : StatePolicy) (r : AccountRecord) (feedbacks : List AccountFeedback)
    → IsWellTyped r
    → (r' : AccountRecord) × (run c policy r feedbacks ≡ ok r') × IsWellTyped r'
unfolding run
run_total c policy r [] h = (r, refl, h)
run_total c policy r (feedback ∷ rest) h =
    let (r₁, first, h₁) = apply_feedback-IsWellTyped c policy r feedback h in
    let (r', later, h') = run_total c policy r₁ rest h₁ in (r', rw first later, h')
