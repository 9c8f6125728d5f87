-- ===== src/Account/StateMachine/Events.antt =====
-- app/control/account/state_machine.py: the policy, the feedback on one upstream request, and the
-- keys of `ext` that the state machine owns.
use text.Mathlib.Text.{◌==◌ as str_eq}
use grok2apinew.Prelude.{
  ℕ, String, Bool, false, ◌&&◌, Option, none, some, ◌==◌, ltb, leb, if◌then◌else◌,
}
use grok2apinew.Prelude.Int.{ℤ, pos, int_beq}
use grok2apinew.Prelude.Keyed.{Keyed, lookup, erase}
use grok2apinew.Account.Models.{
  FeedbackKind, success, unauthorized, forbidden, rate_limited, server_error, QuotaWindow, Value,
  null,
}

pub record StatePolicy : Type 0 where
  pub fail_threshold : ℤ
  pub forbidden_strikes : ℤ
  pub default_cooling_ms : ℤ

abbrev pub default_policy : StatePolicy
default_policy = record {
  fail_threshold = pos 5;
  forbidden_strikes = pos 1;
  default_cooling_ms = pos 900_000;
}

pub record AccountFeedback : Type 0 where
  pub kind : FeedbackKind
  pub mode_id : ℕ
  pub at : ℤ
  pub status_code : Option ℕ
  pub reason : String
  pub quota_window : Option QuotaWindow
  pub retry_after_ms : Option ℤ
  pub confirm_expired : Bool
  pub apply_usage : Bool

unfoldable pub kind_of_status_code : ℕ → FeedbackKind
kind_of_status_code code =
    if code == 401
    then unauthorized
    else if code == 403
    then forbidden
    else if code == 429
    then rate_limited
    else if leb 500 code
    then server_error
    else if leb 200 code && ltb code 300
    then success
    else server_error

-- The last argument is the time that `at` gets by default.
unfoldable pub from_status_code : ℕ → ℕ → String → Option ℤ → Bool → ℤ → AccountFeedback
unfolding kind_of_status_code
from_status_code code mode_id reason retry_after_ms confirm_expired now = record {
  kind = kind_of_status_code code;
  mode_id = mode_id;
  at = now;
  status_code = some code;
  reason = reason;
  quota_window = none;
  retry_after_ms = retry_after_ms;
  confirm_expired = confirm_expired;
  apply_usage = false;
}

abbrev pub cooldown_until_key : String
cooldown_until_key = "cooldown_until"

abbrev pub cooldown_reason_key : String
cooldown_reason_key = "cooldown_reason"

abbrev pub disabled_at_key : String
disabled_at_key = "disabled_at"

abbrev pub disabled_reason_key : String
disabled_reason_key = "disabled_reason"

abbrev pub expired_at_key : String
expired_at_key = "expired_at"

abbrev pub expired_reason_key : String
expired_reason_key = "expired_reason"

abbrev pub forbidden_strike_key : String
forbidden_strike_key = "forbidden_strikes"

abbrev pub or_null : Option Value → Value
or_null none = null
or_null (some v) = v

-- ext.get(key), where a stored `None` and a missing key are alike
unfoldable pub ext_get : String → Keyed Value → Value
ext_get key ext = or_null (lookup key ext)

-- reason or fallback
unfoldable pub reason_or : String → String → String
reason_or reason fallback = if str_eq reason "" then fallback else reason

-- retry_after_ms if retry_after_ms else fallback
unfoldable pub retry_or : Option ℤ → ℤ → ℤ
retry_or none fallback = fallback
retry_or (some ms) fallback = if int_beq ms (pos 0) then fallback else ms

-- All seven keys that the state machine writes.
unfoldable pub pop_all : Keyed Value → Keyed Value
pop_all ext = erase forbidden_strike_key (
    erase expired_reason_key (
      erase expired_at_key (
        erase disabled_reason_key
          (erase disabled_at_key (erase cooldown_reason_key (erase cooldown_until_key ext))))))
