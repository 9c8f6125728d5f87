-- ===== src/Account/Models.antt =====
-- app/control/account/enums.py and models.py: quota windows, quota sets, account records, and the
-- dictionaries in which a quota set is stored. A method that changes `self` returns the new value.
pub mod RoundTrip
use grok2apinew.Prelude.{
  ℕ, String, Bool, true, false, Option, none, some, List, [], ◌∷◌, ◌==◌, if◌then◌else◌,
}
use grok2apinew.Prelude.Int.{ℤ, pos, negsuc, leb_ℤ}
use grok2apinew.Prelude.Result.{Result, ok, err, type_error, value_error, ◌>>=◌}
use grok2apinew.Prelude.Keyed.{Keyed, lookup}

pub data AccountStatus : Type 0 where
  active cooling expired disabled : AccountStatus

pub data QuotaSource : Type 0 where
  default real estimated : QuotaSource

pub data FeedbackKind : Type 0 where
  success unauthorized forbidden rate_limited server_error disable delete restore : FeedbackKind

pub record QuotaWindow : Type 0 where
  pub remaining : ℤ
  pub total : ℤ
  pub window_seconds : ℤ
  pub reset_at : Option ℤ
  pub synced_at : Option ℤ
  pub source : QuotaSource

unfoldable pub is_exhausted : QuotaWindow → Bool
is_exhausted w = leb_ℤ w.remaining (pos 0)

unfoldable pub is_window_expired : QuotaWindow → ℤ → Bool
is_window_expired w now = elim w.reset_at [ none ↦ false | some t ↦ leb_ℤ t now ]

-- The stored form of a window: integers and `None` under text keys.
abbrev pub WindowDict : Type 0
WindowDict = Keyed (Option ℤ)

unfoldable pub int_of_source : QuotaSource → ℤ
int_of_source default = pos 0
int_of_source real = pos 1
int_of_source estimated = pos 2

-- QuotaSource(n)
unfoldable pub source_of_int : ℤ → Result QuotaSource
source_of_int (negsuc n) = err value_error
source_of_int (pos n) =
    if n == 0
    then ok default
    else if n == 1
    then ok real
    else if n == 2
    then ok estimated
    else err value_error

unfoldable pub window_to_dict : QuotaWindow → WindowDict
unfolding int_of_source
window_to_dict w =
    ("remaining", some w.remaining)
    ∷ ("total", some w.total)
    ∷ ("window_seconds", some w.window_seconds)
    ∷ ("reset_at", w.reset_at)
    ∷ ("synced_at", w.synced_at)
    ∷ ("source", some (int_of_source w.source))
    ∷ []

-- int(d.get(key, 0)); `int(None)` raises
unfoldable pub get_int : String → WindowDict → Result ℤ
get_int key d = elim (lookup key d) [
  | none ↦ ok (pos 0)
  | some found ↦ elim found [ none ↦ err type_error | some n ↦ ok n ]
]

-- d.get(key)
unfoldable pub get_optional : String → WindowDict → Option ℤ
get_optional key d = elim (lookup key d) [ none ↦ none | some found ↦ found ]

unfoldable pub window_from_dict : WindowDict → Result QuotaWindow
unfolding get_int get_optional source_of_int lookup
window_from_dict d = do
  remaining ← get_int "remaining" d
  total ← get_int "total" d
  window_seconds ← get_int "window_seconds" d
  code ← get_int "source" d
  source ← source_of_int code
  ok (record {
    remaining = remaining;
    total = total;
    window_seconds = window_seconds;
    reset_at = get_optional "reset_at" d;
    synced_at = get_optional "synced_at" d;
    source = source;
  })

pub record AccountQuotaSet : Type 0 where
  pub auto : QuotaWindow
  pub fast : QuotaWindow
  pub expert : QuotaWindow
  pub heavy : Option QuotaWindow
  pub grok_4_3 : Option QuotaWindow

unfoldable pub get : AccountQuotaSet → ℕ → Option QuotaWindow
get qs mode_id =
    if mode_id == 0
    then some qs.auto
    else if mode_id == 1
    then some qs.fast
    else if mode_id == 2
    then some qs.expert
    else if mode_id == 3
    then qs.heavy
    else if mode_id == 4
    then qs.grok_4_3
    else none

unfoldable pub set : AccountQuotaSet → ℕ → QuotaWindow → AccountQuotaSet
set qs mode_id window =
    if mode_id == 0
    then record qs { auto = window }
    else if mode_id == 1
    then record qs { fast = window }
    else if mode_id == 2
    then record qs { expert = window }
    else if mode_id == 3
    then record qs { heavy = some window }
    else record qs { grok_4_3 = some window }

abbrev pub QuotaDict : Type 0
QuotaDict = Keyed WindowDict

abbrev optional_item : String → Option QuotaWindow → QuotaDict → QuotaDict
optional_item key none rest = rest
optional_item key (some w) rest = (key, window_to_dict w) ∷ rest

unfoldable pub to_dict : AccountQuotaSet → QuotaDict
unfolding window_to_dict
to_dict qs =
    ("auto", window_to_dict qs.auto)
    ∷ ("fast", window_to_dict qs.fast)
    ∷ ("expert", window_to_dict qs.expert)
    ∷ optional_item "heavy" qs.heavy (optional_item "grok_4_3" qs.grok_4_3 [])

-- QuotaWindow.from_dict(d.get(key, {}))
unfoldable pub required_window : String → QuotaDict → Result QuotaWindow
unfolding window_from_dict lookup
required_window key d = elim (lookup key d) [
  | none ↦ window_from_dict []
  | some found ↦ window_from_dict found
]

-- QuotaWindow.from_dict(found) if found else None; an empty dictionary is false
abbrev window_if_truthy : WindowDict → Result (Option QuotaWindow)
window_if_truthy [] = ok none
window_if_truthy (item ∷ rest) = do w ← window_from_dict (item ∷ rest); ok (some w)

unfoldable pub optional_window : String → QuotaDict → Result (Option QuotaWindow)
unfolding window_from_dict lookup
optional_window key d = elim (lookup key d) [ none ↦ ok none | some found ↦ window_if_truthy found ]

unfoldable pub from_dict : QuotaDict → Result AccountQuotaSet
unfolding required_window optional_window
from_dict d = do
  auto ← required_window "auto" d
  fast ← required_window "fast" d
  expert ← required_window "expert" d
  heavy ← optional_window "heavy" d
  grok_4_3 ← optional_window "grok_4_3" d
  ok (record { auto = auto; fast = fast; expert = expert; heavy = heavy; grok_4_3 = grok_4_3 })

-- A JSON value of `ext`; a float stands as its text, and `other` is a list or a dictionary, which the program
-- never opens there.
pub data Value : Type 0 where
  null other : Value
  bool : Bool → Value
  float : String → Value
  int : ℤ → Value
  str : String → Value

pub record AccountRecord : Type 0 where
  pub token : String
  pub pool : String
  pub status : AccountStatus
  pub created_at : ℤ
  pub updated_at : ℤ
  pub tags : List String
  pub quota : QuotaDict
  pub usage_use_count : ℕ
  pub usage_fail_count : ℕ
  pub usage_sync_count : ℕ
  pub last_use_at : Option ℤ
  pub last_fail_at : Option ℤ
  pub last_fail_reason : Option String
  pub last_sync_at : Option ℤ
  pub last_clear_at : Option ℤ
  pub state_reason : Option String
  pub deleted_at : Option ℤ
  pub ext : Keyed Value
  pub revision : ℕ

unfoldable pub is_deleted : AccountRecord → Bool
is_deleted r = elim r.deleted_at [ none ↦ false | some at ↦ true ]

unfoldable pub quota_set : AccountRecord → Result AccountQuotaSet
unfolding from_dict
quota_set r = from_dict r.quota

unfoldable pub with_quota_set : AccountRecord → AccountQuotaSet → AccountRecord
unfolding to_dict
with_quota_set r qs = record r { quota = to_dict qs }
