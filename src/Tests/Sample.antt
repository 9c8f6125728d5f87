-- ===== src/Tests/Sample.antt =====
-- Concrete numbers, records, tables and directories.
use grok2apinew.Prelude.{true, false, none, some, [], ◌≡◌, arith}
use grok2apinew.Prelude.Int.{ℤ, pos, ◌+ℤ◌, ◌-ℤ◌, ◌*ℤ◌, ltb_ℤ}
use grok2apinew.Prelude.Result.{err, overflow_error, value_error}
use grok2apinew.Prelude.Float.{Float, FloatLaws}
use grok2apinew.Account.Models.{AccountStatus, FeedbackKind, AccountRecord, to_dict}
use grok2apinew.Account.Quota.{default_quota_set}
use grok2apinew.Account.StateMachine.Events.{AccountFeedback}
use grok2apinew.Account.StateMachine.Status.{Conversions}
use grok2apinew.Runtime.Slot
use grok2apinew.Runtime.Slot.{Modes, SlotArgs, Slot}
use grok2apinew.Runtime.Table.{Table, make_empty_table, new_slot}
use grok2apinew.Runtime.Table.Writers.{
  make_empty_table-IsConsistent, IsConsistent, appended, appended-IsConsistent,
}
use grok2apinew.Runtime.Selector.{Strategy}
use grok2apinew.Runtime.Directory.{Settings, AccountDirectory, AccountLease}
use grok2apinew.Runtime.Directory.Reserve.{granted}

-- Whole numbers in the place of floats.
abbrev pub ints : Float
ints = record {
  Number = ℤ;
  decimal = λ n k. n;
  of_int = λ n. n;
  plus = ◌+ℤ◌;
  minus = ◌-ℤ◌;
  times = ◌*ℤ◌;
  over = λ a b. a;
  lt = ltb_ℤ;
}

lt_irrefl_ints : (a : ℤ) → ltb_ℤ a a ≡ false
lt_irrefl_ints a = ground arith

lt_trans_ints : (a b c : ℤ) → ltb_ℤ a b ≡ true → ltb_ℤ b c ≡ true → ltb_ℤ a c ≡ true
lt_trans_ints a b c h k = ground arith

pub ints-FloatLaws : FloatLaws ints
ints-FloatLaws = record { lt_irrefl = lt_irrefl_ints; lt_trans = lt_trans_ints }

-- Digits are not read here: no test stores a number as text.
abbrev pub conversions : Conversions
conversions = record {
  int_of_text = λ s. err value_error;
  int_of_float = λ s. err overflow_error;
  text_of_int = λ n. "?";
}

abbrev pub account : AccountStatus → AccountRecord
account status = record {
  token = "t";
  pool = "basic";
  status = status;
  created_at = pos 0;
  updated_at = pos 0;
  tags = [];
  quota = to_dict (default_quota_set "basic");
  usage_use_count = 0;
  usage_fail_count = 0;
  usage_sync_count = 0;
  last_use_at = none;
  last_fail_at = none;
  last_fail_reason = none;
  last_sync_at = none;
  last_clear_at = none;
  state_reason = none;
  deleted_at = none;
  ext = [];
  revision = 0;
}

-- Feedback of a kind on the fast mode, at the time 1000.
abbrev pub event : FeedbackKind → AccountFeedback
event kind = record {
  kind = kind;
  mode_id = 1;
  at = pos 1_000;
  status_code = some 403;
  reason = "r";
  quota_window = none;
  retry_after_ms = some (pos 500);
  confirm_expired = true;
  apply_usage = true;
}

abbrev pub counts : ℤ → Modes ℤ
counts n = record { auto = pos 0; fast = n; expert = pos 0; heavy = pos 0; grok_4_3 = pos 0 }

-- An active slot of the basic pool with some queries of the fast mode left.
abbrev pub basic_args : ℤ → SlotArgs ℤ
basic_args n = record {
  pool_id = 0;
  status_id = Slot.active;
  quota = counts n;
  total = counts (pos 30);
  window = counts (pos 86_400);
  reset = record { auto = 0; fast = 0; expert = 0; heavy = 0; grok_4_3 = 0 };
  health = pos 1;
  last_use_s = 0;
  last_fail_s = 0;
  fail_count = 0;
  tags = [];
}

abbrev pub slot_a : Slot ℤ
slot_a = new_slot "a" (basic_args (pos 10))

abbrev pub slot_b : Slot ℤ
slot_b = new_slot "b" (basic_args (pos 5))

abbrev pub one_account : Table ℤ
one_account = appended make_empty_table "a" (basic_args (pos 10))

abbrev pub two_accounts : Table ℤ
two_accounts = appended one_account "b" (basic_args (pos 5))

pub one_account-IsConsistent : IsConsistent one_account
one_account-IsConsistent =
    appended-IsConsistent make_empty_table "a" (basic_args (pos 10)) make_empty_table-IsConsistent

pub two_accounts-IsConsistent : IsConsistent two_accounts
two_accounts-IsConsistent =
    appended-IsConsistent one_account "b" (basic_args (pos 5)) one_account-IsConsistent

abbrev pub settings : Strategy → Settings
settings strategy = record {
  strategy = strategy;
  choice = λ n. 0;
  max_inflight = pos 8;
  interval_sec = λ pool. pos 60;
}

abbrev pub directory : AccountDirectory ℤ
directory = record { table = some two_accounts; counter = 7 }

-- The second account is leased.
abbrev pub lease_b : AccountLease
lease_b = record {
  lease_id = 8;
  idx = 1;
  token = "b";
  pool_id = 0;
  mode_id = pos 1;
  selected_at = 100;
}

abbrev pub leased : AccountDirectory ℤ
leased = record { table = some (granted two_accounts 1 slot_b 100); counter = 8 }
