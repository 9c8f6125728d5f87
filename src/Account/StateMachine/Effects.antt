-- ===== src/Account/StateMachine/Effects.antt =====
-- app/control/account/state_machine.py: what feedback does to the quota set and to the usage counters.
use grok2apinew.Prelude.{Bool, true, false, ℕ, none, some}
use grok2apinew.Prelude.Int.{pos, ◌+ℤ◌, ◌-ℤ◌, ◌*ℤ◌, max_ℤ}
use grok2apinew.Account.Models
use grok2apinew.Account.Models.{
  FeedbackKind, success, disable, delete, restore, rate_limited, QuotaWindow, AccountQuotaSet,
}
use grok2apinew.Account.StateMachine.Events.{AccountFeedback, retry_or}

-- The quota part of apply_feedback: real data, a local decrement, or an emptied window.
abbrev decremented : QuotaWindow → QuotaWindow
decremented w = record w { remaining = max_ℤ (pos 0) (w.remaining -ℤ pos 1) }

abbrev emptied : AccountFeedback → QuotaWindow → QuotaWindow
emptied feedback w = record w {
  remaining = pos 0;
  reset_at = some (feedback.at +ℤ retry_or feedback.retry_after_ms (w.window_seconds *ℤ pos 1000));
}

abbrev change_window : (QuotaWindow → QuotaWindow) → AccountQuotaSet → ℕ → AccountQuotaSet
change_window f qs mode_id = elim (Models.get qs mode_id) [
  | none ↦ qs
  | some w ↦ Models.set qs mode_id (f w)
]

abbrev quota_by_kind : FeedbackKind → AccountFeedback → AccountQuotaSet → AccountQuotaSet
quota_by_kind success feedback qs = change_window decremented qs feedback.mode_id
quota_by_kind rate_limited feedback qs = change_window (emptied feedback) qs feedback.mode_id
quota_by_kind _ feedback qs = qs

unfoldable pub quota_after : AccountFeedback → AccountQuotaSet → AccountQuotaSet
unfolding retry_or Models.get Models.set
quota_after feedback qs = elim feedback.quota_window [
  | some w ↦ Models.set qs feedback.mode_id w
  | none ↦ quota_by_kind feedback.kind feedback qs
]

-- The usage counters: whether a use is counted, and whether a failure is.
unfoldable pub counts_use : AccountFeedback → Bool
counts_use feedback = elim feedback.kind [ success ↦ feedback.apply_usage | _ ↦ false ]

unfoldable pub counts_failure : FeedbackKind → Bool
counts_failure success = false
counts_failure restore = false
counts_failure disable = false
counts_failure delete = false
counts_failure _ = true
