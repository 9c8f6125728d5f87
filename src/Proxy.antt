-- ===== src/Proxy.antt =====
-- app/control/proxy/models.py and feedback.py: the proxies, their clearance and the kinds of feedback. Of an
-- egress node and a lease the fields that the directory never reads are left out.
pub mod Bundles
pub mod Directory
pub mod Load
pub mod Refresh
pub mod Flights
pub mod Routing
pub mod Rotation
use grok2apinew.Prelude.{
  ℕ, String, Bool, true, false, ◌&&◌, Option, none, some, leb, ◌==◌, if◌then◌else◌,
}
use grok2apinew.Prelude.Int.{ℤ}

pub data EgressMode : Type 0 where
  direct single_proxy proxy_pool : EgressMode

-- The constructor `no_clearance` is the mode NONE.
pub data ClearanceMode : Type 0 where
  no_clearance manual flaresolverr : ClearanceMode

pub data ClearanceBundleState : Type 0 where
  valid stale invalid : ClearanceBundleState

pub data ProxyFeedbackKind : Type 0 where
  success challenge unauthorized forbidden rate_limited upstream_5xx transport_error :
      ProxyFeedbackKind

pub record EgressNode : Type 0 where
  pub node_id : String
  pub proxy_url : Option String

pub record ClearanceBundle : Type 0 where
  pub bundle_id : String
  pub cf_cookies : String
  pub user_agent : String
  pub state : ClearanceBundleState
  pub affinity_key : String
  pub clearance_host : String
  pub last_refresh_at : Option ℤ

pub record ProxyLease : Type 0 where
  pub proxy_url : Option String
  pub cf_cookies : String
  pub user_agent : String
  pub clearance_host : String

pub record ProxyFeedback : Type 0 where
  pub kind : ProxyFeedbackKind
  pub status_code : Option ℕ
  pub reason : String
  pub retry_after_ms : Option ℤ

unfoldable pub classify_status_code : ℕ → ProxyFeedbackKind
classify_status_code status_code =
    if status_code == 200
    then success
    else if status_code == 401
    then unauthorized
    else if status_code == 403
    then challenge
    else if status_code == 429
    then rate_limited
    else if leb 500 status_code
    then upstream_5xx
    else forbidden

unfoldable pub build_feedback : ℕ → Bool → String → Option ℤ → ProxyFeedback
unfolding classify_status_code
build_feedback status_code is_cloudflare reason retry_after_ms = record {
  kind =
      if is_cloudflare && status_code == 403 then challenge else classify_status_code status_code;
  status_code = some status_code;
  reason = reason;
  retry_after_ms = retry_after_ms;
}
