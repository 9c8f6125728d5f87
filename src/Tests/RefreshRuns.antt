-- ===== src/Tests/RefreshRuns.antt =====
-- The theorems on the refresh at concrete windows and records.
use grok2apinew.Prelude.{
  ◌≡◌, ◌+◌, ◌≤◌, refl, true, false, Option, none, some, List, [], ◌∷◌, ℕ, ◌==◌, if◌then◌else◌,
}
use text.Mathlib.Text.{◌==◌ as str_eq}
use grok2apinew.Prelude.Int.{pos, ◌≤ℤ◌, max_ℤ}
use grok2apinew.Prelude.Result.{ok}
use grok2apinew.Account.Models.{
  active, cooling, default, real, estimated, QuotaWindow, AccountRecord, is_exhausted,
  is_window_expired,
}
use grok2apinew.Store.Commands.{AccountPatch}
use grok2apinew.Refresh.{
  RefreshResult, no_result, Job, invalid_credentials, nothing, refresh_batch, patch_of,
  with_windows, fallback_window, exhausted_window, live_window, refresh_answered,
}
use grok2apinew.Refresh.Windows.{fallback_window-le, exhausted_window-blocks, refresh_answered-pool}
use grok2apinew.Refresh.Balance.{refresh_batch-IsBalanced}
use grok2apinew.Tests.Sample.{account}

abbrev live : QuotaWindow
live = record {
  remaining = pos 7;
  total = pos 50;
  window_seconds = pos 7_200;
  reset_at = some (pos 9_000);
  synced_at = some (pos 1_000);
  source = real;
}

abbrev one_less : QuotaWindow
one_less = record live { remaining = pos 6; source = estimated }

falls_back : fallback_window "super" (pos 2_000) 0 (some live) ≡ some one_less
unfolding fallback_window grok2apinew.Refresh.estimated_window grok2apinew.Prelude.Int.◌-ℤ◌
falls_back = refl

not_over : is_window_expired live (pos 2_000) ≡ false
unfolding is_window_expired
not_over = refl

fallback_window-le_example : pos 6 ≤ℤ max_ℤ (pos 0) (pos 7)
fallback_window-le_example =
    fallback_window-le "super" (pos 2_000) 0 live one_less not_over falls_back

exhausted_window-blocks_example :
    (is_exhausted (exhausted_window (pos 2_000) live) ≡ true)
    × (is_window_expired (exhausted_window (pos 2_000) live) (pos 2_000) ≡ false)
exhausted_window-blocks_example = exhausted_window-blocks (pos 2_000) live

abbrev one_checked : RefreshResult
one_checked = record no_result { checked = 1; refreshed = 1 }

-- An account of the super pool, of which only the fast mode has answered.
abbrev super_account : AccountRecord
super_account = record (account active) { pool = "super" }

abbrev only_fast : ℕ → Option QuotaWindow
only_fast m = if m == 1 then some live else none

abbrev to_basic : AccountPatch
to_basic = with_windows only_fast (record (patch_of "t") {
  pool = some "basic";
  last_sync_at = some (pos 3_000);
  usage_sync_delta = some (pos 1);
})

refreshes :
    refresh_answered super_account false (pos 2_000) (pos 3_000) only_fast
    ≡ ok (some to_basic, one_checked)
unfolding grok2apinew.Refresh.refresh_answered grok2apinew.Refresh.mode_window
    grok2apinew.Refresh.live_window grok2apinew.Refresh.has_any grok2apinew.Refresh.pool_patch
    grok2apinew.Refresh.with_windows grok2apinew.Refresh.fallback_window
    grok2apinew.Account.Models.quota_set grok2apinew.Account.Models.from_dict
    grok2apinew.Account.Models.required_window grok2apinew.Account.Models.optional_window
    grok2apinew.Account.Models.window_from_dict grok2apinew.Account.Models.get_int
    grok2apinew.Account.Models.get_optional grok2apinew.Account.Models.source_of_int
    grok2apinew.Account.Models.to_dict grok2apinew.Account.Models.window_to_dict
    grok2apinew.Account.Models.int_of_source grok2apinew.Account.Models.get
    grok2apinew.Account.Quota.normalize_quota_window grok2apinew.Account.Quota.supports_mode
    grok2apinew.Account.Quota.supported_by_pool grok2apinew.Account.Quota.apply_pool_policy
    grok2apinew.Account.Quota.infer_pool grok2apinew.Account.Quota.default_quota_set
    grok2apinew.Account.Quota.pool_defaults grok2apinew.Account.Quota.copy_window
    grok2apinew.Account.Quota.fresh_window grok2apinew.Account.Quota.basic_quota_defaults
    grok2apinew.Prelude.IntSet.mem grok2apinew.Prelude.Keyed.lookup
refreshes = refl

refresh_answered-pool_example :
    to_basic.pool ≡ (if str_eq "basic" "super" then none else some "basic")
refresh_answered-pool_example =
    refresh_answered-pool super_account false (pos 2_000) (pos 3_000) only_fast to_basic one_checked
      refl refreshes

-- One account whose request is refused, and one of which nothing is known.
abbrev jobs : List Job
jobs =
    record {
      account = account active;
      stored = none;
      now = pos 2_000;
      synced = pos 2_001;
      answer = invalid_credentials;
    }
    ∷ record {
      account = account cooling;
      stored = none;
      now = pos 2_000;
      synced = pos 2_001;
      answer = nothing;
    }
    ∷ []

abbrev one_expired_one_failed : RefreshResult
one_expired_one_failed = record no_result { checked = 4; expired = 1; failed = 1 }

batch : refresh_batch false 2 jobs ≡ ok one_expired_one_failed
unfolding refresh_batch grok2apinew.Refresh.refresh_each grok2apinew.Refresh.refresh_one
    grok2apinew.Refresh.merge_all grok2apinew.Refresh.merge grok2apinew.Account.Models.is_deleted
batch = refl

refresh_batch-IsBalanced_example : (4 ≡ 2 + (0 + 1 + 1)) × (0 ≤ 0)
refresh_batch-IsBalanced_example =
    refresh_batch-IsBalanced false 2 jobs one_expired_one_failed batch
