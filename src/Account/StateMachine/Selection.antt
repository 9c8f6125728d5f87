-- ===== src/Account/StateMachine/Selection.antt =====
-- Which modes of an account can be selected after feedback.
use grok2apinew.Prelude.{
  ℕ, ◌≡◌, ◌≢◌, refl, ◌∙◌, false, ◌&&◌, not, none, arith, String, if◌then◌else◌,
}
use grok2apinew.Prelude.Int.{ℤ, ◌+ℤ◌, leb_ℤ}
use grok2apinew.Prelude.Result.{ok}
use grok2apinew.Account.Models.{
  AccountStatus, rate_limited, restore, AccountRecord, AccountQuotaSet, active, is_deleted, get,
  quota_set, is_exhausted,
}
use grok2apinew.Account.Models.RoundTrip.{from_dict-to_dict}
use grok2apinew.Account.Quota.{default_quota_set, supports_mode}
use grok2apinew.Account.StateMachine.Events.{StatePolicy, AccountFeedback, retry_or}
use grok2apinew.Account.StateMachine.Effects.{quota_after}
use grok2apinew.Account.StateMachine.Status.{
  Conversions, Standing, restored, status_when, is_active, has_quota, derive_status,
  derive_by_status, transition, is_selectable,
}
use grok2apinew.Account.StateMachine.Apply.{apply_feedback, updated, standing_of, is_restore}
use grok2apinew.Account.StateMachine.Inversion.{apply_feedback-Applied, Applied-updated}
use grok2apinew.Account.StateMachine.Cooldown.{transition-rate_limited, derive-cool}

-- The selection test of a record whose status and quota set are known.
is_selectable_parts :
    (c : Conversions) (r : AccountRecord) (m : ℕ) (now : ℤ) (status : AccountStatus)
    (qs : AccountQuotaSet)
    → derive_status c r now ≡ ok status
    → quota_set r ≡ ok qs
    → is_selectable c r m now ≡ ok (not (is_deleted r) && is_active status && has_quota (get qs m))
unfolding is_selectable
is_selectable_parts c r m now status qs d q = ground arith

pub quota_set-updated :
    (c : Conversions) (r : AccountRecord) (feedback : AccountFeedback) (qs : AccountQuotaSet)
    (s : Standing)
    → quota_set (updated c r feedback qs s)
      ≡ ok (if is_restore feedback.kind then default_quota_set r.pool else quota_after feedback qs)
unfolding quota_set updated
quota_set-updated c r feedback qs s = from_dict-to_dict _

has_quota-default :
    (pool : String) (m : ℕ) → has_quota (get (default_quota_set pool) m) ≡ supports_mode pool m
unfolding get default_quota_set supports_mode is_exhausted
has_quota-default pool m = ground arith

-- The selection test after feedback, by the status that its standing gives.
is_selectable-updated :
    (c : Conversions) (r : AccountRecord) (feedback : AccountFeedback) (qs : AccountQuotaSet)
    (s : Standing) (m : ℕ) (now : ℤ) (status : AccountStatus)
    → derive_by_status c s.status s.ext now ≡ ok status
    → is_selectable c (updated c r feedback qs s) m now
      ≡ ok (
          not (is_deleted r)
          && is_active status
          && has_quota (
              get
                (if is_restore feedback.kind
                  then default_quota_set r.pool
                  else quota_after feedback qs)
                m))
unfolding derive_status updated is_deleted
is_selectable-updated c r feedback qs s m now status h =
    is_selectable_parts c (updated c r feedback qs s) m now status _ h
      (quota_set-updated c r feedback qs s)

transition-restore :
    (c : Conversions) (policy : StatePolicy) (feedback : AccountFeedback) (s : Standing)
    → feedback.kind ≡ restore
    → transition c policy feedback s ≡ ok (restored s)
unfolding transition
transition-restore c policy feedback s k = rw k

-- A restored account can be selected, at any time, for exactly the modes that its pool supports,
-- unless the record is deleted.
pub restore_selectable :
    (c : Conversions) (policy : StatePolicy) (r r' : AccountRecord) (feedback : AccountFeedback)
    (m : ℕ) (now : ℤ)
    → feedback.kind ≡ restore
    → apply_feedback c policy r feedback ≡ ok r'
    → is_selectable c r' m now ≡ ok (not (is_deleted r) && supports_mode r.pool m)
restore_selectable c policy r r' feedback m now k h =
    let a = apply_feedback-Applied c policy r feedback r' h in
    let back = transition-restore c policy feedback (standing_of r) k in
    rw (Applied-updated a _ back) (
      is_selectable-updated c r feedback a.qs (restored (standing_of r)) m now active refl
      ∙ rw k (ground (arith, has_quota-default r.pool m)))

-- The mode that hit a rate limit, with no fresh window from upstream, has no quota left.
has_quota-rate_limited :
    (feedback : AccountFeedback) (qs : AccountQuotaSet)
    → feedback.kind ≡ rate_limited
    → feedback.quota_window ≡ none
    → has_quota (get (quota_after feedback qs) feedback.mode_id) ≡ false
unfolding quota_after get is_exhausted
has_quota-rate_limited feedback qs k w = ground arith

has_quota-rate_limited_ne :
    (feedback : AccountFeedback) (qs : AccountQuotaSet) (n : ℕ)
    → feedback.kind ≡ rate_limited
    → feedback.quota_window ≡ none
    → feedback.mode_id ≢ n
    → has_quota (get (quota_after feedback qs) n) ≡ has_quota (get qs n)
unfolding quota_after get is_exhausted
has_quota-rate_limited_ne feedback qs n k w ne = ground arith

-- After a rate limit that came with no fresh window, the account can be selected for no query of that
-- mode at any time, and for another mode exactly once the cooldown is over, if that mode has quota and the record is not deleted.
pub rate_limited_selection :
    (c : Conversions) (policy : StatePolicy) (r r' : AccountRecord) (feedback : AccountFeedback)
    (qs : AccountQuotaSet) (n : ℕ) (now : ℤ)
    → feedback.kind ≡ rate_limited
    → feedback.quota_window ≡ none
    → quota_set r ≡ ok qs
    → feedback.mode_id ≢ n
    → apply_feedback c policy r feedback ≡ ok r'
    → (is_selectable c r' feedback.mode_id now ≡ ok false)
      × (is_selectable c r' n now
          ≡ ok (
              not (is_deleted r)
              && is_active (
                  status_when (
                    leb_ℤ
                      (feedback.at +ℤ retry_or feedback.retry_after_ms policy.default_cooling_ms)
                      now))
              && has_quota (get qs n)))
rate_limited_selection c policy r r' feedback qs n now k w q ne h =
    let a = apply_feedback-Applied c policy r feedback r' h in
    let moved = transition-rate_limited c policy feedback (standing_of r) k in
    let derived = derive-cool c policy feedback (standing_of r) now in
    rw (Applied-updated a _ moved) (
      is_selectable-updated c r feedback a.qs _ feedback.mode_id now _ derived
          ∙ rw k (ground (arith, has_quota-rate_limited feedback a.qs k w)),
      is_selectable-updated c r feedback a.qs _ n now _ derived
          ∙ rw k (ground (arith, has_quota-rate_limited_ne feedback a.qs n k w ne, a.read)),
    )
