-- ===== src/Tests/ReverseRuns.antt =====
-- The theorems on failed calls of upstream at concrete failures.
use mathlib.Core.List.{Memᴰ}
use grok2apinew.Prelude.{◌≡◌, refl, true, none, ◌==◌, if◌then◌else◌, ℕ, not, ◌&&◌, ◌||◌}
use grok2apinew.Prelude.Int.{ℤ, pos}
use grok2apinew.Proxy.Bundles.{key_eq}
use grok2apinew.Proxy.Directory.{feedback}
use grok2apinew.Proxy.Flights.{valid_bundle}
use grok2apinew.Proxy.Routing.{key_of_lease}
use grok2apinew.Reverse.Clearance.{valid_bundle-failure_feedback}
use grok2apinew.Tests.ProxyRuns.{lease_a, key_a, pool}
use grok2apinew.Reverse.{
  Failure, upstream_error, is_invalid_credentials_error, failure_feedback, status_or_code, Answer,
  timed_out, failed, raised, fetch_all_quotas,
}
use grok2apinew.Reverse.Credentials.{fetch_all_quotas_invalid}

-- A challenge page is no invalid credential.
abbrev just_a_moment : Failure
just_a_moment = upstream_error 403 "Just a moment"

valid_bundle-failure_feedback_example :
    valid_bundle key_a (feedback lease_a (failure_feedback just_a_moment) pool) ≡ (
      if not (is_invalid_credentials_error just_a_moment)
        && (status_or_code just_a_moment == 401 || status_or_code just_a_moment == 403)
        && key_eq (key_of_lease lease_a) key_a
      then none
      else valid_bundle key_a pool)
valid_bundle-failure_feedback_example =
    valid_bundle-failure_feedback lease_a just_a_moment key_a pool

abbrev revoked : Failure
revoked = upstream_error 401 "Token Revoked"

-- Only the request of the expert mode is refused.
abbrev answers : ℕ → Answer
answers m = if m == 2 then failed revoked else timed_out

abbrev at_5 : ℕ → ℤ
at_5 m = pos 5

revoked-invalid : is_invalid_credentials_error revoked ≡ true
unfolding is_invalid_credentials_error grok2apinew.Reverse.is_invalid_credentials_body
    grok2apinew.Reverse.lower_body grok2apinew.Account.Normalize.is_part
revoked-invalid = refl

fetch_all_quotas_invalid_example :
    (first : Failure) × (fetch_all_quotas answers at_5 none ≡ raised first)
    × (is_invalid_credentials_error first ≡ true)
fetch_all_quotas_invalid_example =
    fetch_all_quotas_invalid answers at_5 none 2 revoked (Memᴰ.tail (Memᴰ.tail (Memᴰ.head refl)))
      refl revoked-invalid
