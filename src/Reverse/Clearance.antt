-- ===== src/Reverse/Clearance.antt =====
-- What a failed quota request costs the proxy (app/dataplane/reverse/protocol/xai_usage.py, _do_fetch, and
-- app/control/proxy/__init__.py, feedback).
use grok2apinew.Prelude.{
  ℕ, ◌≡◌, refl, ◌&&◌, ◌||◌, not, none, ◌==◌, arith, Bool-cases, inl, inr, if◌then◌else◌,
}
use grok2apinew.Proxy.{ProxyLease}
use grok2apinew.Proxy.Bundles.{BundleKey, key_eq}
use grok2apinew.Proxy.Directory.{ProxyDirectory, feedback, is_credential_failure}
use grok2apinew.Proxy.Flights.{valid_bundle}
use grok2apinew.Proxy.Routing.{key_of_lease, valid_bundle-feedback}
use grok2apinew.Reverse.{
  Failure, is_invalid_credentials_error, proxy_feedback_kind_for_error, proxy_kind_of_status,
  status_or_code, failure_feedback,
}

by_status : (n : ℕ) → is_credential_failure (proxy_kind_of_status n) ≡ (n == 401 || n == 403)
unfolding is_credential_failure
by_status n = ground arith

by_failure :
    (exc : Failure)
    → is_credential_failure (failure_feedback exc).kind ≡ (
        not (is_invalid_credentials_error exc)
        && (status_or_code exc == 401 || status_or_code exc == 403))
unfolding failure_feedback proxy_feedback_kind_for_error is_credential_failure
by_failure exc = elim (Bool-cases (is_invalid_credentials_error exc)) [
  | inl invalid ↦ rw invalid refl
  | inr other ↦ rw other (by_status (status_or_code exc))
]

-- After a failed quota request, the bundle of a key is served if it was before, unless the failure is a 401
-- or a 403 that is not about invalid credentials, and the key is the one of the request's lease.
pub valid_bundle-failure_feedback :
    (lease : ProxyLease) (exc : Failure) (k : BundleKey) (d : ProxyDirectory)
    → valid_bundle k (feedback lease (failure_feedback exc) d) ≡ (
        if not (is_invalid_credentials_error exc)
          && (status_or_code exc == 401 || status_or_code exc == 403)
          && key_eq (key_of_lease lease) k
        then none
        else valid_bundle k d)
valid_bundle-failure_feedback lease exc k d =
    rw (valid_bundle-feedback lease (failure_feedback exc) k d, by_failure exc) (ground arith)
