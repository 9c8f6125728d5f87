-- ===== src/Store.antt =====
-- app/control/account/backends/local.py and app/control/account/commands.py: the repository of accounts.
-- A transaction that raises is rolled back, so it leaves the store as it was. A text column of JSON is the
-- value it encodes. `ts` is now_ms() at the time of a call.
pub mod Commands
pub mod Rows
pub mod Patch
pub mod Mutations
pub mod Queries
pub mod Revisions
pub mod Sessions
pub mod Scan
pub mod Accounts
pub mod Columns
use grok2apinew.Prelude.{ℕ, String, Bool, Option, none, some, List, [], ◌∷◌, ◌++◌, not}
use grok2apinew.Prelude.Int.{ℤ, pos}
use grok2apinew.Prelude.Result.{Result, ok, err, value_error, ◌>>=◌}
use grok2apinew.Prelude.Keyed.{Keyed}
use grok2apinew.Account.Models.{
  AccountStatus, AccountRecord, AccountQuotaSet, QuotaWindow, QuotaDict, WindowDict, Value,
  window_to_dict, quota_set,
}
use grok2apinew.Account.Normalize.{normalize_token, normalize_pool, normalize_tags}

-- A row of the table `accounts`.
pub record Row : Type 0 where
  pub token : String
  pub pool : String
  pub status : AccountStatus
  pub created_at : ℤ
  pub updated_at : ℤ
  pub tags : List String
  pub quota_auto : WindowDict
  pub quota_fast : WindowDict
  pub quota_expert : WindowDict
  pub quota_heavy : WindowDict
  pub quota_grok_4_3 : WindowDict
  pub usage_use_count : ℕ
  pub usage_fail_count : ℕ
  pub usage_sync_count : ℕ
  pub last_use_at : Option ℤ
  pub last_fail_at : Option ℤ
  pub last_fail_reason : Option String
  pub last_sync_at : Option ℤ
  pub last_clear_at : Option ℤ
  pub state_reason : Option String
  pub deleted_at : Option ℤ
  pub ext : Keyed Value
  pub revision : ℕ

-- The two tables: the rows in the order of their insertion, and the one value of `account_meta`.
pub record Store : Type 0 where
  pub rows : List Row
  pub revision : ℕ

-- What _init_sync makes of a new file.
abbrev pub init : Store
init = record { rows = []; revision = 0 }

abbrev some_or_value_error {ℓ} : {A : Type ℓ} → Option A → Result A
some_or_value_error none = err value_error
some_or_value_error (some a) = ok a

-- {key: dict} if dict else {}
abbrev pub item_if_truthy : String → WindowDict → QuotaDict → QuotaDict
item_if_truthy key [] rest = rest
item_if_truthy key (item ∷ items) rest = (key, item ∷ items) ∷ rest

unfoldable pub quota_of_row : Row → QuotaDict
quota_of_row row =
    ("auto", row.quota_auto)
    ∷ ("fast", row.quota_fast)
    ∷ ("expert", row.quota_expert)
    ∷ item_if_truthy "heavy" row.quota_heavy (item_if_truthy "grok_4_3" row.quota_grok_4_3 [])

-- _row_to_record; model_validate runs the validators of the token, the pool and the tags
unfoldable pub row_to_record : Row → Result AccountRecord
unfolding quota_of_row
row_to_record row = do
  token ← some_or_value_error (normalize_token row.token)
  pool ← some_or_value_error (normalize_pool row.pool)
  ok (record {
    token = token;
    pool = pool;
    status = row.status;
    created_at = row.created_at;
    updated_at = row.updated_at;
    tags = normalize_tags row.tags;
    quota = quota_of_row row;
    usage_use_count = row.usage_use_count;
    usage_fail_count = row.usage_fail_count;
    usage_sync_count = row.usage_sync_count;
    last_use_at = row.last_use_at;
    last_fail_at = row.last_fail_at;
    last_fail_reason = row.last_fail_reason;
    last_sync_at = row.last_sync_at;
    last_clear_at = row.last_clear_at;
    state_reason = row.state_reason;
    deleted_at = row.deleted_at;
    ext = row.ext;
    revision = row.revision;
  })

-- json.dumps(w.to_dict()) if w else "{}"
abbrev pub dict_or_empty : Option QuotaWindow → WindowDict
dict_or_empty none = []
dict_or_empty (some w) = window_to_dict w

-- _record_to_row
unfoldable pub record_to_row : AccountRecord → ℕ → Result Row
record_to_row r revision = do
  qs ← quota_set r
  ok (record {
    token = r.token;
    pool = r.pool;
    status = r.status;
    created_at = r.created_at;
    updated_at = r.updated_at;
    tags = r.tags;
    quota_auto = window_to_dict qs.auto;
    quota_fast = window_to_dict qs.fast;
    quota_expert = window_to_dict qs.expert;
    quota_heavy = dict_or_empty qs.heavy;
    quota_grok_4_3 = dict_or_empty qs.grok_4_3;
    usage_use_count = r.usage_use_count;
    usage_fail_count = r.usage_fail_count;
    usage_sync_count = r.usage_sync_count;
    last_use_at = r.last_use_at;
    last_fail_at = r.last_fail_at;
    last_fail_reason = r.last_fail_reason;
    last_sync_at = r.last_sync_at;
    last_clear_at = r.last_clear_at;
    state_reason = r.state_reason;
    deleted_at = r.deleted_at;
    ext = r.ext;
    revision = revision;
  })
