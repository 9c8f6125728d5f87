-- ===== src/Account/Quota/Policy.antt =====
-- What the quota policy keeps (app/control/account/quota_defaults.py).
use grok2apinew.Prelude.{
  ℕ, String, ◌≡◌, refl, Bool, true, false, ◌&&◌, not, ◌⊎◌, inl, inr, Option, none, some, arith,
}
use grok2apinew.Prelude.Int.{pos, ◌≤ℤ◌, int_beq}
use grok2apinew.Prelude.IntSet.{mem}
use grok2apinew.Account.Models.{QuotaWindow, AccountQuotaSet, get, is_exhausted}
use grok2apinew.Account.Quota.{
  default_quota_set, default_quota_window, supports_mode, supported_mode_ids,
  normalize_quota_window, normalize_quota_set, infer_pool,
}

-- The tuple of supported modes lists exactly the modes that the pool supports.
pub mem-supported_mode_ids :
    (pool : String) (m : ℕ) → mem m (supported_mode_ids pool) ≡ supports_mode pool m
unfolding supported_mode_ids supports_mode
mem-supported_mode_ids pool m = ground arith

abbrev pub is_full : Option QuotaWindow → Bool
is_full none = false
is_full (some w) = int_beq w.remaining w.total && not (is_exhausted w)

-- A pool supports exactly the modes that have a default window, and every default window starts full
-- and with at least one query.
pub default_quota_window_full :
    (pool : String) (m : ℕ) → is_full (default_quota_window pool m) ≡ supports_mode pool m
unfolding default_quota_window is_exhausted
default_quota_window_full pool m = ground arith

-- In a normalised quota set a window of a mode that the pool does not support is exhausted.
pub normalize_quota_set_unsupported :
    (pool : String) (qs : AccountQuotaSet) (m : ℕ) (w : QuotaWindow)
    → supports_mode pool m ≡ false
    → get (normalize_quota_set pool qs) m ≡ some w
    → is_exhausted w ≡ true
unfolding normalize_quota_set get is_exhausted
normalize_quota_set_unsupported pool qs m w h g = ground arith

-- Whatever was stored, the normalised fast window of a basic account has a total of 30 and between 0
-- and 30 queries left.
pub basic_fast_bounds :
    (qs : AccountQuotaSet)
    → let w = (normalize_quota_set "basic" qs).fast in
      (pos 0 ≤ℤ w.remaining) × (w.remaining ≤ℤ pos 30) × (w.total ≡ pos 30)
unfolding normalize_quota_set
basic_fast_bounds qs = ground arith

window_idem :
    (pool : String) (m : ℕ) (o : Option QuotaWindow)
    → normalize_quota_window pool m (normalize_quota_window pool m o)
      ≡ normalize_quota_window pool m o
unfolding normalize_quota_window
window_idem pool m none = refl
window_idem pool m (some w) = ground arith

normalize_quota_set_idem_parts :
    (pool : String) (a f e : QuotaWindow) (h g : Option QuotaWindow)
    → let qs : AccountQuotaSet = record {
      auto = a;
      fast = f;
      expert = e;
      heavy = h;
      grok_4_3 = g;
    } in
      normalize_quota_set pool (normalize_quota_set pool qs) ≡ normalize_quota_set pool qs
unfolding normalize_quota_set
normalize_quota_set_idem_parts pool a f e h g =
    ground (arith, window_idem pool 3 h, window_idem pool 4 g)

-- Normalising a quota set twice is normalising it once, for every pool name.
pub normalize_quota_set_idem :
    (pool : String) (qs : AccountQuotaSet)
    → normalize_quota_set pool (normalize_quota_set pool qs) ≡ normalize_quota_set pool qs
normalize_quota_set_idem pool qs =
    normalize_quota_set_idem_parts pool qs.auto qs.fast qs.expert qs.heavy qs.grok_4_3

-- The pool that is inferred from the default windows of a known pool is that pool.
pub infer_pool-default :
    (pool : String)
    → (pool ≡ "basic") ⊎ (pool ≡ "super") ⊎ (pool ≡ "heavy")
    → infer_pool (get (default_quota_set pool)) ≡ pool
unfolding infer_pool get default_quota_set
infer_pool-default pool (inl e) = rw e
infer_pool-default pool (inr (inl e)) = rw e
infer_pool-default pool (inr (inr e)) = rw e
