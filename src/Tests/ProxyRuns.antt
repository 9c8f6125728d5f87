-- ===== src/Tests/ProxyRuns.antt =====
-- The theorems on the proxies at concrete directories, coroutines and pools.
use grok2apinew.Prelude.{
  ℕ, ◌<◌, ◌≡◌, refl, ◌⊎◌, true, false, ◌&&◌, String, none, some, [], ◌∷◌, arith, if◌then◌else◌,
}
use grok2apinew.Prelude.Int.{pos}
use grok2apinew.Proxy.{
  EgressMode, direct, proxy_pool, flaresolverr, valid, challenge, ClearanceBundle, ProxyLease,
  ProxyFeedback,
}
use grok2apinew.Proxy.Bundles.{BundleKey, key_eq, lookup}
use grok2apinew.Proxy.Directory.{
  ProxyConfig, ProxyDirectory, new_directory, url_at, pick_proxy_url, invalidate_clearance,
  is_credential_failure, feedback,
}
use grok2apinew.Proxy.Load.{load, same_config}
use grok2apinew.Proxy.Refresh.{
  IsKeptOrNew, refresh_clearance_safe, refresh_clearance_safe-IsKeptOrNew,
}
use grok2apinew.Proxy.Flights.{
  entering, waiting, refreshing, begin, goto, Flight, enter, valid_bundle, start, calls, enters,
  steps,
}
use grok2apinew.Proxy.Flights.Wakes.{IsHeld}
use grok2apinew.Proxy.Flights.Waits
use grok2apinew.Proxy.Flights.Waits.{no_lost_wake}
use grok2apinew.Proxy.Flights.Single
use grok2apinew.Proxy.Flights.Single.{single_flight}
use grok2apinew.Proxy.Rotation.{fed, pick_proxy_url-fed}
use grok2apinew.Proxy.Routing.{key_of_lease, valid_bundle-feedback, valid_bundle-load}

-- No text is made of a number here but the digit 0.
abbrev zero_text : ℕ → String
zero_text n = "0"

abbrev pub key_a : BundleKey
key_a = ("http://a", "grok.com")

abbrev bundle_a : ClearanceBundle
bundle_a = record {
  bundle_id = "1";
  cf_cookies = "c";
  user_agent = "u";
  state = valid;
  affinity_key = "http://a";
  clearance_host = "grok.com";
  last_refresh_at = none;
}

abbrev config : EgressMode → ProxyConfig
config mode = record {
  egress_mode = mode;
  clearance_mode = flaresolverr;
  base_url = "";
  res_url = "";
  base_pool = "http://a" ∷ "http://b" ∷ [];
  res_pool = [];
  flaresolverr_url = "";
  cf_cookies = "";
  user_agent = "";
  cf_clearance = "";
  browser = "";
  timeout_sec = pos 60;
}

-- A pool of two nodes, with a bundle for the first.
abbrev pub pool : ProxyDirectory
pool = record new_directory {
  nodes =
      record { node_id = "pool-0"; proxy_url = some "http://a" }
      ∷ record { node_id = "pool-1"; proxy_url = some "http://b" }
      ∷ [];
  bundles = (key_a, bundle_a) ∷ [];
  egress_mode = proxy_pool;
  clearance_mode = flaresolverr;
  config_sig = some (config proxy_pool);
}

abbrev pub lease_a : ProxyLease
lease_a = record {
  proxy_url = some "http://a";
  cf_cookies = "c";
  user_agent = "u";
  clearance_host = "grok.com";
}

abbrev challenged : ProxyFeedback
challenged = record { kind = challenge; status_code = some 403; reason = ""; retry_after_ms = none }

valid_bundle-feedback_example : valid_bundle key_a (feedback lease_a challenged pool) ≡ (
    if is_credential_failure challenge && key_eq (key_of_lease lease_a) key_a
    then none
    else valid_bundle key_a pool)
valid_bundle-feedback_example = valid_bundle-feedback lease_a challenged key_a pool

other_mode : same_config (config proxy_pool) (config direct) ≡ false
unfolding same_config
other_mode = refl

valid_bundle-load_example :
    (valid_bundle key_a (load zero_text (config direct) pool) ≡ none)
    × (valid_bundle key_a (invalidate_clearance pool) ≡ none)
valid_bundle-load_example =
    valid_bundle-load zero_text (config direct) (config proxy_pool) key_a pool refl other_mode

pick_proxy_url-fed_example :
    (n : ℕ) × (n < 2) × (pick_proxy_url false (fed n lease_a challenged pool) ≡ url_at pool.nodes 1)
pick_proxy_url-fed_example =
    pick_proxy_url-fed lease_a challenged pool 1
      (unfold grok2apinew.Proxy.Directory.has_url in refl)
      (unfold grok2apinew.Proxy.Directory.is_node_failure in refl) refl (omega arith)

has_bundle_a : lookup key_a pool.bundles ≡ some bundle_a
unfolding lookup key_eq
has_bundle_a = refl

refresh_clearance_safe-IsKeptOrNew_example :
    IsKeptOrNew
      (λ url. "grok.com")
      (λ k url origin. none)
      key_a
      bundle_a
      (refresh_clearance_safe (λ url. "grok.com") (λ k url origin. none) pool).bundles
refresh_clearance_safe-IsKeptOrNew_example =
    refresh_clearance_safe-IsKeptOrNew (λ url. "grok.com") (λ k url origin. none) pool key_a
      bundle_a has_bundle_a

abbrev key_b : BundleKey
key_b = ("http://b", "grok.com")

-- Two coroutines have asked for the bundle of the second node: the first refreshes, the second waits.
abbrev one_called : Flight
one_called = record (start pool) { at = goto 0 (entering key_b) (start pool).at }

abbrev one_refreshes : Flight
one_refreshes = enter key_b 0 one_called

abbrev two_called : Flight
two_called = record one_refreshes {
  at = goto 1 (begin one_refreshes.directory.clearance_mode key_b) one_refreshes.at;
}

abbrev one_waits : Flight
one_waits = enter key_b 1 two_called

one_calls : Single.Loadless pool one_refreshes
unfolding grok2apinew.Proxy.Flights.is_valid grok2apinew.Proxy.Flights.valid_bundle
    grok2apinew.Proxy.Flights.enter grok2apinew.Proxy.Flights.start grok2apinew.Proxy.Bundles.key_eq
    grok2apinew.Proxy.Bundles.lookup grok2apinew.Proxy.Bundles.insert
    grok2apinew.Proxy.Bundles.erase grok2apinew.Proxy.Bundles.keep_keys
    grok2apinew.Proxy.Bundles.map_values grok2apinew.Proxy.Bundles.keys
one_calls = Single.goes (Single.goes Single.starts (calls 0 key_b refl)) (enters 0 key_b refl)

reaches : Waits.Reachable zero_text pool one_waits
unfolding grok2apinew.Proxy.Flights.is_valid grok2apinew.Proxy.Flights.valid_bundle
    grok2apinew.Proxy.Flights.enter grok2apinew.Proxy.Flights.start grok2apinew.Proxy.Bundles.key_eq
    grok2apinew.Proxy.Bundles.lookup grok2apinew.Proxy.Bundles.insert
    grok2apinew.Proxy.Bundles.erase grok2apinew.Proxy.Bundles.keep_keys
    grok2apinew.Proxy.Bundles.map_values grok2apinew.Proxy.Bundles.keys
reaches =
    Waits.goes
      (Waits.goes
        (Waits.goes (Waits.goes Waits.starts (steps (calls 0 key_b refl)))
          (steps (enters 0 key_b refl)))
        (steps (calls 1 key_b refl)))
      (steps (enters 1 key_b refl))

waits_for_0 : one_waits.at 1 ≡ waiting key_b 0
unfolding grok2apinew.Proxy.Flights.is_valid grok2apinew.Proxy.Flights.valid_bundle
    grok2apinew.Proxy.Flights.enter grok2apinew.Proxy.Flights.start grok2apinew.Proxy.Bundles.key_eq
    grok2apinew.Proxy.Bundles.lookup grok2apinew.Proxy.Bundles.insert
    grok2apinew.Proxy.Bundles.erase grok2apinew.Proxy.Bundles.keep_keys
    grok2apinew.Proxy.Bundles.map_values grok2apinew.Proxy.Bundles.keys
waits_for_0 = refl

no_lost_wake_example : (one_waits.fired 0 ≡ true) ⊎ IsHeld one_waits.at key_b 0
no_lost_wake_example = no_lost_wake zero_text pool one_waits 1 key_b 0 reaches waits_for_0

refreshes_0 : Single.Holds one_refreshes.at 0 key_b 0
unfolding grok2apinew.Proxy.Flights.Wakes.held grok2apinew.Proxy.Flights.is_valid
    grok2apinew.Proxy.Flights.valid_bundle grok2apinew.Proxy.Flights.enter
    grok2apinew.Proxy.Flights.start grok2apinew.Proxy.Bundles.key_eq
    grok2apinew.Proxy.Bundles.lookup grok2apinew.Proxy.Bundles.insert
    grok2apinew.Proxy.Bundles.erase grok2apinew.Proxy.Bundles.keep_keys
    grok2apinew.Proxy.Bundles.map_values grok2apinew.Proxy.Bundles.keys
refreshes_0 = refl

single_flight_example : ◌≡◌ {A = ℕ} 0 0
single_flight_example =
    single_flight pool one_refreshes 0 0 key_b 0 0 one_calls refreshes_0 refreshes_0
