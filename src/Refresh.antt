-- ===== src/Refresh.antt =====
-- app/control/account/refresh.py: what a refresh of an account writes. An answer of the usage API is an
-- argument, and so are the times of the calls of now_ms().
pub mod Windows
pub mod Balance
use grok2apinew.Prelude.{
  ℕ, ◌+◌, String, Bool, true, false, ◌&&◌, ◌||◌, not, Option, none, some, List, [], ◌∷◌, ◌==◌, leb,
  if◌then◌else◌,
}
use text.Mathlib.Text.{◌==◌ as str_eq}
use grok2apinew.Prelude.Int.{ℤ, pos, ◌+ℤ◌, ◌-ℤ◌, ◌*ℤ◌, max_ℤ, ltb_ℤ}
use grok2apinew.Prelude.Result.{Result, ok, err, runtime_error, ◌>>=◌}
use grok2apinew.Prelude.Keyed.{Keyed, insert}
use grok2apinew.Account.Models.{
  AccountStatus, cooling, expired, QuotaSource, default, real, estimated, QuotaWindow,
  AccountQuotaSet, AccountRecord, Value, int, str, WindowDict, get, is_deleted, is_window_expired,
  window_to_dict, quota_set,
}
use grok2apinew.Account.Quota.{
  supports_mode, default_quota_window, normalize_quota_window, infer_pool,
}
use grok2apinew.Store.Commands.{AccountPatch}

pub record RefreshResult : Type 0 where
  pub checked : ℕ
  pub refreshed : ℕ
  pub recovered : ℕ
  pub expired : ℕ
  pub disabled : ℕ
  pub rate_limited : ℕ
  pub failed : ℕ

-- RefreshResult()
abbrev pub no_result : RefreshResult
no_result = record {
  checked = 0;
  refreshed = 0;
  recovered = 0;
  expired = 0;
  disabled = 0;
  rate_limited = 0;
  failed = 0;
}

unfoldable pub merge : RefreshResult → RefreshResult → RefreshResult
merge a b = record {
  checked = a.checked + b.checked;
  refreshed = a.refreshed + b.refreshed;
  recovered = a.recovered + b.recovered;
  expired = a.expired + b.expired;
  disabled = a.disabled + b.disabled;
  rate_limited = a.rate_limited + b.rate_limited;
  failed = a.failed + b.failed;
}

-- The loop over the results of a batch.
unfoldable pub merge_all : RefreshResult → List RefreshResult → RefreshResult
unfolding merge
merge_all agg [] = agg
merge_all agg (r ∷ rs) = merge_all (merge agg r) rs

-- What the fetch of the windows gives: windows by mode, nothing, the error of invalid credentials, another
-- error of upstream.
pub data Answer : Type 0 where
  windows : (ℕ → Option QuotaWindow) → Answer
  nothing invalid_credentials upstream_error : Answer

-- AccountPatch(token=token)
abbrev pub patch_of : String → AccountPatch
patch_of token = record {
  token = token;
  pool = none;
  status = none;
  tags = none;
  add_tags = none;
  remove_tags = none;
  quota_auto = none;
  quota_fast = none;
  quota_expert = none;
  quota_heavy = none;
  quota_grok_4_3 = none;
  usage_use_delta = none;
  usage_fail_delta = none;
  usage_sync_delta = none;
  last_use_at = none;
  last_fail_at = none;
  last_fail_reason = none;
  last_sync_at = none;
  last_clear_at = none;
  state_reason = none;
  ext_merge = none;
  clear_failures = false;
}

abbrev dict_of : Option QuotaWindow → Option WindowDict
dict_of none = none
dict_of (some w) = some (window_to_dict w)

-- The patch with the windows of `patches`, by mode.
unfoldable pub with_windows : (ℕ → Option QuotaWindow) → AccountPatch → AccountPatch
unfolding window_to_dict
with_windows patches patch = record patch {
  quota_auto = dict_of (patches 0);
  quota_fast = dict_of (patches 1);
  quota_expert = dict_of (patches 2);
  quota_heavy = dict_of (patches 3);
  quota_grok_4_3 = dict_of (patches 4);
}

abbrev pub is_some : Option QuotaWindow → Bool
is_some none = false
is_some (some w) = true

-- Whether any of the five modes has a window.
unfoldable pub has_any : (ℕ → Option QuotaWindow) → Bool
has_any patches =
    is_some (patches 0)
    || is_some (patches 1)
    || is_some (patches 2)
    || is_some (patches 3)
    || is_some (patches 4)

-- One query less, as an estimate.
unfoldable pub estimated_window : QuotaWindow → QuotaWindow
unfolding ◌-ℤ◌
estimated_window w = record w {
  remaining = max_ℤ (pos 0) (w.remaining -ℤ pos 1);
  source = estimated;
}

-- A full default window that starts now.
unfoldable pub renewed_window : ℤ → QuotaWindow → QuotaWindow
unfolding ◌+ℤ◌ ◌*ℤ◌
renewed_window now d = record {
  remaining = d.total;
  total = d.total;
  window_seconds = d.window_seconds;
  reset_at = some (now +ℤ d.window_seconds *ℤ pos 1_000);
  synced_at = some now;
  source = default;
}

abbrev pub is_real : QuotaSource → Bool
is_real real = true
is_real _ = false

abbrev renewed_or_none : ℤ → Option QuotaWindow → Option QuotaWindow
renewed_or_none now none = none
renewed_or_none now (some d) = some (renewed_window now d)

-- The fallback for one mode, on the stored window.
unfoldable pub fallback_window : String → ℤ → ℕ → Option QuotaWindow → Option QuotaWindow
unfolding estimated_window is_window_expired default_quota_window renewed_window
fallback_window pool now mode_id none = none
fallback_window pool now mode_id (some existing) =
    if is_real existing.source
    then some (estimated_window existing)
    else if is_window_expired existing now
    then renewed_or_none now (default_quota_window pool mode_id)
    else none

-- _apply_fallback
unfoldable pub apply_fallback : AccountRecord → ℤ → Result (Option AccountPatch × RefreshResult)
unfolding quota_set get fallback_window has_any with_windows
apply_fallback r now = do
  qs ← quota_set r
  let patches : ℕ → Option QuotaWindow =
      λ mode_id. fallback_window r.pool now mode_id (get qs mode_id)
  ok (
    if has_any patches then some (with_windows patches (patch_of r.token)) else none,
    record no_result { checked = 1; failed = 1 },
  )

-- The live window of a mode, normalised.
unfoldable pub live_window : AccountRecord → (ℕ → Option QuotaWindow) → ℕ → Option QuotaWindow
unfolding normalize_quota_window
live_window r answer mode_id = normalize_quota_window r.pool mode_id (answer mode_id)

-- One turn of the loop over the modes.
unfoldable pub mode_window :
    AccountRecord → Bool → ℤ → AccountQuotaSet → (ℕ → Option QuotaWindow) → ℕ → Option QuotaWindow
unfolding live_window fallback_window get
mode_window r fallback now qs answer mode_id = elim (answer mode_id) [
  | some w ↦ live_window r answer mode_id
  | none ↦ if fallback then fallback_window r.pool now mode_id (get qs mode_id) else none
]

-- inferred if inferred != record.pool else None
unfoldable pub pool_patch : AccountRecord → (ℕ → Option QuotaWindow) → Option String
unfolding infer_pool
pool_patch r answer =
    let inferred = infer_pool answer in if str_eq inferred r.pool then none else some inferred

abbrev pub one_if : Bool → ℕ
one_if b = if b then 1 else 0

abbrev some_if {ℓ} : {A : Type ℓ} → Bool → A → Option A
some_if b a = if b then some a else none

abbrev is_cooling : AccountStatus → Bool
is_cooling cooling = true
is_cooling _ = false

-- What is written and counted for the windows of `patches`, the live ones among them or not.
abbrev pub answered :
    AccountRecord
    → ℤ
    → (ℕ → Option QuotaWindow)
    → (ℕ → Option QuotaWindow)
    → Bool
    → Option AccountPatch × RefreshResult
answered r synced answer patches refreshed =
    if has_any patches
    then (
      some (
          with_windows patches (record (patch_of r.token) {
            pool = pool_patch r answer;
            last_sync_at = some_if refreshed synced;
            usage_sync_delta = some_if refreshed (pos 1);
          })),
      record no_result {
        checked = 1;
        refreshed = one_if refreshed;
        failed = one_if (not refreshed);
        recovered = one_if (is_cooling r.status && refreshed);
      },
    )
    else (none, record no_result { checked = 1; failed = one_if (not refreshed) })

-- The rest of _refresh_one, once there are windows; `synced` is the time of the patch.
unfoldable pub refresh_answered :
    AccountRecord
    → Bool
    → ℤ
    → ℤ
    → (ℕ → Option QuotaWindow)
    → Result (Option AccountPatch × RefreshResult)
unfolding quota_set mode_window live_window has_any pool_patch with_windows
refresh_answered r fallback now synced answer = do
  qs ← quota_set r
  ok (
      answered r synced answer (mode_window r fallback now qs answer)
        (has_any (live_window r answer)))

-- The patch of mark_account_invalid_credentials; `ext` is that of the stored record, empty if there is none.
unfoldable pub expired_patch : String → Keyed Value → ℤ → AccountPatch
unfolding insert
expired_patch token ext ts = record (patch_of token) {
  status = some AccountStatus.expired;
  last_fail_at = some ts;
  last_fail_reason = some "invalid_credentials";
  state_reason = some "invalid_credentials";
  ext_merge =
      some (insert "expired_reason" (str "invalid_credentials") (insert "expired_at" (int ts) ext));
}

abbrev ext_of : Option AccountRecord → Keyed Value
ext_of none = []
ext_of (some stored) = stored.ext

-- _refresh_one; `stored` is what the repository has for the token when the account is marked. Where the
-- answer is another error of upstream, the error goes on.
unfoldable pub refresh_one :
    AccountRecord
    → Bool
    → Option AccountRecord
    → ℤ
    → ℤ
    → Answer
    → Result (Option AccountPatch × RefreshResult)
unfolding is_deleted apply_fallback refresh_answered expired_patch
refresh_one r fallback stored now synced answer =
    if is_deleted r then ok (none, no_result) else elim answer [
      | windows found ↦ refresh_answered r fallback now synced found
      | nothing ↦
          if fallback
          then apply_fallback r now
          else ok (none, record no_result { checked = 1; failed = 1 })
      | invalid_credentials ↦ ok (
        some (expired_patch r.token (ext_of stored) now),
        record no_result { checked = 1; expired = 1 },
      )
      | upstream_error ↦ err runtime_error
    ]

-- The refresh of one account in a batch, with what its calls read and are answered.
pub record Job : Type 0 where
  pub account : AccountRecord
  pub stored : Option AccountRecord
  pub now : ℤ
  pub synced : ℤ
  pub answer : Answer

-- run_batch over the manageable accounts: an error of one refresh is the error of the batch.
unfoldable pub refresh_each : Bool → List Job → Result (List (Option AccountPatch × RefreshResult))
unfolding refresh_one
refresh_each fallback [] = ok []
refresh_each fallback (job ∷ jobs) = do
  one ← refresh_one job.account fallback job.stored job.now job.synced job.answer
  rest ← refresh_each fallback jobs
  ok (one ∷ rest)

abbrev pub results_of : List (Option AccountPatch × RefreshResult) → List RefreshResult
results_of [] = []
results_of ((patch, result) ∷ rest) = result ∷ results_of rest

-- The end of refresh_scheduled and refresh_tokens, which start at RefreshResult(), and of
-- refresh_on_import, which starts at checked=len(records).
unfoldable pub refresh_batch : Bool → ℕ → List Job → Result RefreshResult
unfolding refresh_each merge_all
refresh_batch fallback checked jobs = do
  results ← refresh_each fallback jobs
  ok (merge_all (record no_result { checked = checked }) (results_of results))

abbrev pub later_reset : Option ℤ → ℤ → ℤ → ℤ
later_reset none now fallback = fallback
later_reset (some t) now fallback = if ltb_ℤ now t then t else fallback

-- The window that record_failure_async stores after a 429.
unfoldable pub exhausted_window : ℤ → QuotaWindow → QuotaWindow
unfolding ◌+ℤ◌ ◌*ℤ◌
exhausted_window now w = record w {
  remaining = pos 0;
  reset_at = some (later_reset w.reset_at now (now +ℤ max_ℤ w.window_seconds (pos 1) *ℤ pos 1_000));
  source = estimated;
}

abbrev only : ℕ → Option QuotaWindow → ℕ → Option QuotaWindow
only mode_id w m = if m == mode_id then w else none

abbrev exhausted_or_none : ℤ → Option QuotaWindow → Option QuotaWindow
exhausted_or_none now none = none
exhausted_or_none now (some w) = some (exhausted_window now w)

-- record_failure_async after a 429 on a mode from 0 to 4, for an account that is stored.
unfoldable pub rate_limited_patch : AccountRecord → ℕ → ℤ → Result AccountPatch
unfolding quota_set get exhausted_window with_windows
rate_limited_patch r mode_id now = do
  qs ← quota_set r
  ok (
      with_windows (only mode_id (exhausted_or_none now (get qs mode_id)))
        (record (patch_of r.token) {
          usage_fail_delta = some (pos 1);
          last_fail_at = some now;
          last_fail_reason = some "rate_limited";
        }))

-- record_failure_async after any other failure.
unfoldable pub failure_patch : String → ℤ → AccountPatch
failure_patch token now = record (patch_of token) {
  usage_fail_delta = some (pos 1);
  last_fail_at = some now;
}

abbrev estimated_or_none : Option QuotaWindow → Option QuotaWindow
estimated_or_none none = none
estimated_or_none (some w) = some (estimated_window w)

abbrev with_live : ℕ → Option QuotaWindow → ℤ → AccountPatch → Option AccountPatch
with_live mode_id none synced base = none
with_live mode_id (some n) synced base = some (
    with_windows (only mode_id (some n))
      (record base { last_sync_at = some synced; usage_sync_delta = some (pos 1) }))

abbrev single_mode :
    AccountRecord
    → ℕ
    → AccountQuotaSet
    → Option QuotaWindow
    → ℤ
    → AccountPatch
    → Option AccountPatch
single_mode r mode_id qs none synced base =
    some (with_windows (only mode_id (estimated_or_none (get qs mode_id))) base)
single_mode r mode_id qs (some w) synced base =
    with_live mode_id (normalize_quota_window r.pool mode_id (some w)) synced base

-- _apply_single_mode, as refresh_call_async calls it after a use; none where it writes nothing.
unfoldable pub apply_single_mode :
    AccountRecord → ℕ → Option QuotaWindow → ℤ → ℤ → Result (Option AccountPatch)
unfolding quota_set get normalize_quota_window estimated_window with_windows
apply_single_mode r mode_id window used synced = do
  qs ← quota_set r
  let base = record (patch_of r.token) { usage_use_delta = some (pos 1); last_use_at = some used }
  ok (if leb mode_id 4 then single_mode r mode_id qs window synced base else none)
