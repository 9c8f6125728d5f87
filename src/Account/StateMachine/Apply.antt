-- ===== src/Account/StateMachine/Apply.antt =====
-- app/control/account/state_machine.py: apply_feedback and clear_failures.
use grok2apinew.Prelude.{ℕ, ◌+◌, Bool, true, false, Option, none, some, String, ◌==◌, if◌then◌else◌}
use grok2apinew.Prelude.Int.{ℤ, pos}
use grok2apinew.Prelude.Result.{Result, ok, ◌>>=◌}
use grok2apinew.Account.Models.{
  active, FeedbackKind, restore, QuotaWindow, AccountQuotaSet, AccountRecord, quota_set, to_dict,
}
use grok2apinew.Account.Quota.{default_quota_set}
use grok2apinew.Account.StateMachine.Events.{StatePolicy, AccountFeedback, reason_or, pop_all}
use grok2apinew.Account.StateMachine.Effects.{quota_after, counts_use, counts_failure}
use grok2apinew.Account.StateMachine.Status.{Conversions, Standing, transition}

abbrev pub is_restore : FeedbackKind → Bool
is_restore restore = true
is_restore _ = false

abbrev pub is_some : Option QuotaWindow → Bool
is_some none = false
is_some (some w) = true

abbrev pub standing_of : AccountRecord → Standing
standing_of r = record { status = r.status; state_reason = r.state_reason; ext = r.ext }

module _ (conversions : Conversions) where
  -- str(status_code or "")
  unfoldable pub status_text : Option ℕ → String
  status_text none = ""
  status_text (some code) = if code == 0 then "" else conversions.text_of_int (pos code)

  -- The copy of the record that apply_feedback returns, from the quota set that was read and the
  -- standing after the transitions.
  unfoldable pub updated :
      AccountRecord → AccountFeedback → AccountQuotaSet → Standing → AccountRecord
  unfolding to_dict quota_after counts_use counts_failure status_text
  updated r feedback qs s =
      let synced = is_some feedback.quota_window in
      let used = counts_use feedback in
      let failed = counts_failure feedback.kind in
      record r {
        status = s.status;
        quota = to_dict (
            if is_restore feedback.kind then default_quota_set r.pool else quota_after feedback qs);
        usage_use_count = if used then r.usage_use_count + 1 else r.usage_use_count;
        usage_fail_count = if failed then r.usage_fail_count + 1 else r.usage_fail_count;
        usage_sync_count = if synced then r.usage_sync_count + 1 else r.usage_sync_count;
        last_use_at = if used then some feedback.at else r.last_use_at;
        last_fail_at = if failed then some feedback.at else r.last_fail_at;
        last_fail_reason =
            if failed
            then some (reason_or feedback.reason (status_text feedback.status_code))
            else r.last_fail_reason;
        last_sync_at = if synced then some feedback.at else r.last_sync_at;
        state_reason = s.state_reason;
        ext = s.ext;
        updated_at = feedback.at;
      }

  unfoldable pub apply_feedback :
      StatePolicy → AccountRecord → AccountFeedback → Result AccountRecord
  apply_feedback policy r feedback = do
    qs ← quota_set r
    s ← transition conversions policy feedback (standing_of r)
    ok (updated r feedback qs s)

unfoldable pub clear_failures : AccountRecord → ℤ → AccountRecord
unfolding pop_all
clear_failures r now = record r {
  status = active;
  usage_fail_count = 0;
  last_fail_at = none;
  last_fail_reason = none;
  state_reason = none;
  ext = pop_all r.ext;
  updated_at = now;
}
