-- ===== src/Account/StateMachine/Status.antt =====
-- app/control/account/state_machine.py: the effective status of an account, and the status
-- transitions of apply_feedback. `int(text)`, `int(float)` and `str(int)` are Python's own conversions, a parameter
-- of the functions that call them. The time that the source reads from the clock is an argument.
use grok2apinew.Prelude.{Bool, true, false, not, Option, none, some, String, ℕ, if◌then◌else◌}
use grok2apinew.Prelude.Int.{ℤ, pos, ◌+ℤ◌, leb_ℤ}
use grok2apinew.Prelude.Result.{Result, ok, err, type_error, ◌>>=◌}
use grok2apinew.Prelude.Keyed.{Keyed, lookup, insert, erase}
use grok2apinew.Account.Models
use grok2apinew.Account.Models.{
  AccountStatus, active, cooling, expired, disabled, FeedbackKind, success, unauthorized, forbidden,
  rate_limited, server_error, disable, delete, restore, QuotaWindow, AccountRecord, Value, null,
  other, bool, float, int, str, is_deleted, is_exhausted, quota_set,
}
use grok2apinew.Account.StateMachine.Events.{
  StatePolicy, AccountFeedback, cooldown_until_key, cooldown_reason_key, disabled_at_key,
  disabled_reason_key, expired_at_key, expired_reason_key, forbidden_strike_key, ext_get, reason_or,
  retry_or, pop_all,
}

-- What the transitions change.
pub record Standing : Type 0 where
  pub status : AccountStatus
  pub state_reason : Option String
  pub ext : Keyed Value

-- Python's conversions between numbers and text: int(text), int(float), and str(int).
pub record Conversions : Type 0 where
  pub int_of_text : String → Result ℤ
  pub int_of_float : String → Result ℤ
  pub text_of_int : ℤ → String

abbrev pub status_when : Bool → AccountStatus
status_when true = active
status_when false = cooling

abbrev pub is_active : AccountStatus → Bool
is_active active = true
is_active _ = false

abbrev pub has_quota : Option QuotaWindow → Bool
has_quota none = false
has_quota (some w) = not (is_exhausted w)

abbrev is_active_or_cooling : AccountStatus → Bool
is_active_or_cooling active = true
is_active_or_cooling cooling = true
is_active_or_cooling _ = false

abbrev pub expire : AccountFeedback → Standing → Standing
expire feedback s =
    let reason = reason_or feedback.reason "token_expired" in
    record {
      status = expired;
      state_reason = some reason;
      ext = insert expired_reason_key (str reason) (insert expired_at_key (int feedback.at) s.ext);
    }

abbrev pub disable_for : String → AccountFeedback → Standing → Standing
disable_for fallback feedback s =
    let reason = reason_or feedback.reason fallback in
    record {
      status = disabled;
      state_reason = some reason;
      ext =
          insert disabled_reason_key (str reason) (insert disabled_at_key (int feedback.at) s.ext);
    }

abbrev pub cool : StatePolicy → AccountFeedback → Standing → Standing
cool policy feedback s =
    let reason = reason_or feedback.reason "rate_limited" in
    record {
      status = cooling;
      state_reason = some reason;
      ext = insert cooldown_reason_key (str reason) (
          insert cooldown_until_key
            (int (feedback.at +ℤ retry_or feedback.retry_after_ms policy.default_cooling_ms))
            s.ext);
    }

abbrev pub warmed : Standing → Standing
warmed s = record {
  status = active;
  state_reason = none;
  ext = erase forbidden_strike_key (erase cooldown_reason_key (erase cooldown_until_key s.ext));
}

abbrev pub restored : Standing → Standing
restored s = record { status = active; state_reason = none; ext = pop_all s.ext }

module _ (conversions : Conversions) where
  -- int(value)
  unfoldable pub int_of_value : Value → Result ℤ
  int_of_value (int n) = ok n
  int_of_value (str s) = conversions.int_of_text s
  int_of_value (float s) = conversions.int_of_float s
  int_of_value (bool true) = ok (pos 1)
  int_of_value (bool false) = ok (pos 0)
  int_of_value null = err type_error
  int_of_value other = err type_error

  -- cooldown_until is not None and ts >= int(cooldown_until)
  unfoldable pub cooldown_over : Value → ℤ → Result Bool
  unfolding int_of_value
  cooldown_over null ts = ok false
  cooldown_over v ts = do until ← int_of_value v; ok (leb_ℤ until ts)

  abbrev pub derive_by_status : AccountStatus → Keyed Value → ℤ → Result AccountStatus
  derive_by_status cooling ext now = do
    over ← cooldown_over (ext_get cooldown_until_key ext) now
    ok (status_when over)
  derive_by_status status ext now = ok status

  unfoldable pub derive_status : AccountRecord → ℤ → Result AccountStatus
  unfolding cooldown_over ext_get
  derive_status r now = derive_by_status r.status r.ext now

  unfoldable pub is_selectable : AccountRecord → ℕ → ℤ → Result Bool
  unfolding derive_status is_deleted quota_set Models.get is_exhausted
  is_selectable r mode_id now = if is_deleted r then ok false else do
    status ← derive_status r now
    if is_active status
        then (do qs ← quota_set r; ok (has_quota (Models.get qs mode_id)))
        else ok false

  unfoldable pub is_manageable : AccountRecord → ℤ → Result Bool
  unfolding derive_status is_deleted
  is_manageable r now =
      if is_deleted r
      then ok false
      else do status ← derive_status r now; ok (is_active_or_cooling status)

  -- int(ext.get("forbidden_strikes", 0)) + 1
  unfoldable pub next_strike : Keyed Value → Result ℤ
  unfolding int_of_value
  next_strike ext = elim (lookup forbidden_strike_key ext) [
    | none ↦ ok (pos 1)
    | some v ↦ int_of_value v >>= λ n. ok (n +ℤ pos 1)
  ]

  abbrev pub strike : StatePolicy → AccountFeedback → Standing → Result Standing
  strike policy feedback s = do
    strikes ← next_strike s.ext
    let struck : Standing = record s { ext = insert forbidden_strike_key (int strikes) s.ext }
    ok (
        if leb_ℤ policy.forbidden_strikes strikes
        then disable_for "forbidden" feedback struck
        else struck)

  -- SUCCESS on a cooling account whose cooldown is over
  abbrev pub recover : AccountStatus → AccountFeedback → Standing → Result Standing
  recover cooling feedback s = do
    over ← cooldown_over (ext_get cooldown_until_key s.ext) feedback.at
    ok (if over then warmed s else s)
  recover status feedback s = ok s

  abbrev pub transition_by_kind :
      FeedbackKind → StatePolicy → AccountFeedback → Standing → Result Standing
  transition_by_kind unauthorized policy feedback s =
      ok (if feedback.confirm_expired then expire feedback s else s)
  transition_by_kind forbidden policy feedback s = strike policy feedback s
  transition_by_kind rate_limited policy feedback s = ok (cool policy feedback s)
  transition_by_kind success policy feedback s = recover s.status feedback s
  transition_by_kind disable policy feedback s = ok (disable_for "operator_disabled" feedback s)
  transition_by_kind delete policy feedback s = ok s
  transition_by_kind restore policy feedback s = ok (restored s)
  transition_by_kind server_error policy feedback s = ok s

  -- The status transitions of apply_feedback.
  unfoldable pub transition : StatePolicy → AccountFeedback → Standing → Result Standing
  unfolding reason_or retry_or next_strike cooldown_over ext_get pop_all
  transition policy feedback s = transition_by_kind feedback.kind policy feedback s
