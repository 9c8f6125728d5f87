-- ===== src/Account/Quota.antt =====
-- app/control/account/quota_defaults.py: the default windows of each pool, the modes that a pool
-- supports, the quota policy of a pool and the inference of a pool from live windows.
pub mod Policy
use grok2apinew.Prelude.{
  ℕ, suc, String, Bool, true, false, ◌&&◌, ◌||◌, not, Option, none, some, List, [], ◌∷◌, ◌==◌,
  if◌then◌else◌,
}
use text.Mathlib.Text.{◌==◌ as str_eq}
use grok2apinew.Prelude.Int.{ℤ, pos, min_ℤ, max_ℤ, int_beq}
use grok2apinew.Prelude.IntSet.{mem, filter}
use grok2apinew.Account.Models.{QuotaWindow, AccountQuotaSet, default, get}

-- _w
unfoldable pub fresh_window : ℤ → ℤ → ℤ → QuotaWindow
fresh_window remaining total window_seconds = record {
  remaining = remaining;
  total = total;
  window_seconds = window_seconds;
  reset_at = none;
  synced_at = none;
  source = default;
}

abbrev pub basic_fast_limit : ℤ
basic_fast_limit = pos 30

abbrev pub basic_fast_window_seconds : ℤ
basic_fast_window_seconds = pos 86_400

unfoldable pub basic_quota_defaults : AccountQuotaSet
unfolding fresh_window
basic_quota_defaults = record {
  auto = fresh_window (pos 0) (pos 0) (pos 0);
  fast = fresh_window basic_fast_limit basic_fast_limit basic_fast_window_seconds;
  expert = fresh_window (pos 0) (pos 0) (pos 0);
  heavy = none;
  grok_4_3 = none;
}

unfoldable pub super_quota_defaults : AccountQuotaSet
unfolding fresh_window
super_quota_defaults = record {
  auto = fresh_window (pos 50) (pos 50) (pos 7_200);
  fast = fresh_window (pos 140) (pos 140) (pos 7_200);
  expert = fresh_window (pos 50) (pos 50) (pos 7_200);
  heavy = none;
  grok_4_3 = some (fresh_window (pos 50) (pos 50) (pos 7_200));
}

unfoldable pub heavy_quota_defaults : AccountQuotaSet
unfolding fresh_window
heavy_quota_defaults = record {
  auto = fresh_window (pos 150) (pos 150) (pos 7_200);
  fast = fresh_window (pos 400) (pos 400) (pos 7_200);
  expert = fresh_window (pos 150) (pos 150) (pos 7_200);
  heavy = some (fresh_window (pos 20) (pos 20) (pos 7_200));
  grok_4_3 = some (fresh_window (pos 150) (pos 150) (pos 7_200));
}

-- _POOL_DEFAULTS.get(pool, BASIC_QUOTA_DEFAULTS)
unfoldable pub pool_defaults : String → AccountQuotaSet
unfolding basic_quota_defaults super_quota_defaults heavy_quota_defaults
pool_defaults pool =
    if str_eq pool "super"
    then super_quota_defaults
    else if str_eq pool "heavy"
    then heavy_quota_defaults
    else basic_quota_defaults

-- _SUPPORTED_MODE_IDS_BY_POOL.get(pool, _SUPPORTED_MODE_IDS_BY_POOL["basic"])
unfoldable pub supported_by_pool : String → List ℕ
supported_by_pool pool =
    if str_eq pool "super"
    then 0 ∷ 1 ∷ 2 ∷ 4 ∷ []
    else if str_eq pool "heavy"
    then 0 ∷ 1 ∷ 2 ∷ 3 ∷ 4 ∷ []
    else 1 ∷ []

-- A copy of a default window: its counts, and nothing of its history.
unfoldable pub copy_window : QuotaWindow → QuotaWindow
unfolding fresh_window
copy_window w = fresh_window w.remaining w.total w.window_seconds

abbrev copy_optional : Option QuotaWindow → Option QuotaWindow
copy_optional none = none
copy_optional (some w) = some (copy_window w)

unfoldable pub default_quota_set : String → AccountQuotaSet
unfolding pool_defaults copy_window
default_quota_set pool =
    let src = pool_defaults pool in
    record {
      auto = copy_window src.auto;
      fast = copy_window src.fast;
      expert = copy_window src.expert;
      heavy = copy_optional src.heavy;
      grok_4_3 = copy_optional src.grok_4_3;
    }

unfoldable pub supports_mode : String → ℕ → Bool
unfolding supported_by_pool mem
supports_mode pool mode_id = mem mode_id (supported_by_pool pool)

unfoldable pub supported_mode_ids : String → List ℕ
unfolding supported_by_pool mem filter
supported_mode_ids pool =
    filter (λ mode_id. mem mode_id (supported_by_pool pool)) (0 ∷ 1 ∷ 2 ∷ 3 ∷ 4 ∷ [])

unfoldable pub default_quota_window : String → ℕ → Option QuotaWindow
unfolding supports_mode default_quota_set get
default_quota_window pool mode_id =
    if not (supports_mode pool mode_id) then none else get (default_quota_set pool) mode_id

-- The branch of normalize_quota_window for a window of a supported mode.
unfoldable pub apply_pool_policy : String → ℕ → QuotaWindow → QuotaWindow
apply_pool_policy pool mode_id w =
    if str_eq pool "basic" && mode_id == 1
    then record w {
      remaining = max_ℤ (pos 0) (min_ℤ w.remaining basic_fast_limit);
      total = basic_fast_limit;
      window_seconds = basic_fast_window_seconds;
    }
    else w

unfoldable pub normalize_quota_window : String → ℕ → Option QuotaWindow → Option QuotaWindow
unfolding supports_mode apply_pool_policy
normalize_quota_window pool mode_id none = none
normalize_quota_window pool mode_id (some w) =
    if not (supports_mode pool mode_id) then none else some (apply_pool_policy pool mode_id w)

-- `found or fallback`; a window is always true
abbrev pub window_or : Option QuotaWindow → QuotaWindow → QuotaWindow
window_or none fallback = fallback
window_or (some w) fallback = w

unfoldable pub normalize_quota_set : String → AccountQuotaSet → AccountQuotaSet
unfolding default_quota_set normalize_quota_window
normalize_quota_set pool qs =
    let defaults = default_quota_set pool in
    record {
      auto = window_or (normalize_quota_window pool 0 (some qs.auto)) defaults.auto;
      fast = window_or (normalize_quota_window pool 1 (some qs.fast)) defaults.fast;
      expert = window_or (normalize_quota_window pool 2 (some qs.expert)) defaults.expert;
      heavy = normalize_quota_window pool 3 qs.heavy;
      grok_4_3 = normalize_quota_window pool 4 qs.grok_4_3;
    }

-- The argument is the live windows by mode.
unfoldable pub infer_pool : (ℕ → Option QuotaWindow) → String
infer_pool windows = elim (windows 0) [
  | none ↦ "basic"
  | some w ↦
      if int_beq w.total (pos 20)
      then "basic"
      else if int_beq w.total (pos 50)
      then "super"
      else if int_beq w.total (pos 150)
      then "heavy"
      else "basic"
]
