-- ===== src/Account/StateMachine/Inversion.antt =====
-- What a successful apply_feedback has read and written.
use grok2apinew.Prelude.{◌≡◌}
use grok2apinew.Prelude.Result.{ok, >>=-eq-ok}
use grok2apinew.Account.Models.{AccountQuotaSet, AccountRecord, quota_set}
use grok2apinew.Account.StateMachine.Events.{StatePolicy, AccountFeedback}
use grok2apinew.Account.StateMachine.Status.{Conversions, Standing, transition}
use grok2apinew.Account.StateMachine.Apply.{apply_feedback, updated, standing_of}

pub record Applied (c : Conversions) (policy : StatePolicy) (r : AccountRecord)
    (feedback : AccountFeedback) (r' : AccountRecord) : Type 0 where
  pub qs : AccountQuotaSet
  pub standing : Standing
  pub read : quota_set r ≡ ok qs
  pub moved : transition c policy feedback (standing_of r) ≡ ok standing
  pub result : r' ≡ updated c r feedback qs standing

pub apply_feedback-Applied :
    (c : Conversions) (policy : StatePolicy) (r : AccountRecord) (feedback : AccountFeedback)
    (r' : AccountRecord)
    → apply_feedback c policy r feedback ≡ ok r'
    → Applied c policy r feedback r'
unfolding apply_feedback
apply_feedback-Applied c policy r feedback r' h =
    let (qs, read, rest) = >>=-eq-ok (quota_set r) _ h in
    let (s, moved, last) = >>=-eq-ok (transition c policy feedback (standing_of r)) _ rest in
    record { qs = qs; standing = s; read = read; moved = moved; result = cc }

-- Where the transition is known, so is the record.
pub Applied-updated :
    {c : Conversions} {policy : StatePolicy} {r : AccountRecord} {feedback : AccountFeedback}
    {r' : AccountRecord} (a : Applied c policy r feedback r') (s : Standing)
    → transition c policy feedback (standing_of r) ≡ ok s
    → r' ≡ updated c r feedback a.qs s
Applied-updated a s h = cc (a.result, a.moved)

-- What it returns, from what it reads.
pub apply_feedback-eq-ok :
    (c : Conversions) (policy : StatePolicy) (r : AccountRecord) (feedback : AccountFeedback)
    (qs : AccountQuotaSet) (s : Standing)
    → quota_set r ≡ ok qs
    → transition c policy feedback (standing_of r) ≡ ok s
    → apply_feedback c policy r feedback ≡ ok (updated c r feedback qs s)
unfolding apply_feedback
apply_feedback-eq-ok c policy r feedback qs s read moved = rw read (rw moved)
