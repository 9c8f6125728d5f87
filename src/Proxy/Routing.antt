-- ===== src/Proxy/Routing.antt =====
-- What feedback and a load do to later requests (app/control/proxy/__init__.py).
use grok2apinew.Prelude.{
  ℕ, ◌≡◌, refl, String, false, ◌&&◌, Option, none, some, arith, if◌then◌else◌, Option-cases, inl,
  inr,
}
use grok2apinew.Proxy.{ClearanceBundle, ProxyLease, ProxyFeedback}
use grok2apinew.Proxy.Bundles.{
  BundleKey, KeyMap, key_eq, key_eq→≡, lookup, insert, keep_keys, map_values, lookup-insert,
  lookup-map_values,
}
use grok2apinew.Proxy.Directory.{
  ProxyConfig, ProxyDirectory, affinity_of, invalidated, invalidate_clearance, invalidate_found,
  is_credential_failure, feedback, feedback_bundle, feedback_cursor,
}
use grok2apinew.Proxy.Load.{load, reloaded, is_kept, same_config}
use grok2apinew.Proxy.Flights.{valid_bundle, if_valid, is_valid}

-- The key of the bundle that a lease was made with.
unfoldable pub key_of_lease : ProxyLease → BundleKey
unfolding affinity_of
key_of_lease lease = (affinity_of lease.proxy_url, lease.clearance_host)

valid_bundle-eq :
    (k : BundleKey) (d : ProxyDirectory) → valid_bundle k d ≡ if_valid (lookup k d.bundles)
unfolding valid_bundle
valid_bundle-eq k d = refl

if_valid-invalidated : (bundle : ClearanceBundle) → if_valid (some (invalidated bundle)) ≡ none
unfolding is_valid
if_valid-invalidated bundle = refl

after_insert :
    (key k : BundleKey) (bundle : ClearanceBundle) (d : KeyMap ClearanceBundle)
    → if_valid (lookup k (insert key (invalidated bundle) d))
      ≡ (if key_eq key k then none else if_valid (lookup k d))
unfolding is_valid
after_insert key k bundle d = rw (lookup-insert key k (invalidated bundle) d) (ground arith)

invalidate_found-valid :
    (o : Option ClearanceBundle) (key k : BundleKey) (d : ProxyDirectory)
    → lookup key d.bundles ≡ o
    → if_valid (lookup k (invalidate_found o key d).bundles)
      ≡ (if key_eq key k then none else if_valid (lookup k d.bundles))
invalidate_found-valid none key k d known = ground (arith, key_eq→≡ key k)
invalidate_found-valid (some bundle) key k d known = after_insert key k bundle d.bundles

feedback-bundles :
    (lease : ProxyLease) (result : ProxyFeedback) (d : ProxyDirectory)
    → (feedback lease result d).bundles ≡ (
        if is_credential_failure result.kind
        then (invalidate_found
            (lookup (key_of_lease lease) d.bundles)
            (key_of_lease lease)
            d).bundles
        else d.bundles)
unfolding feedback feedback_bundle feedback_cursor key_of_lease
feedback-bundles lease result d = ground arith

-- After feedback, the bundle of a key is served if it was before, unless the feedback is a challenge or a
-- refused authorisation and the key is the one of its lease.
pub valid_bundle-feedback :
    (lease : ProxyLease) (result : ProxyFeedback) (k : BundleKey) (d : ProxyDirectory)
    → valid_bundle k (feedback lease result d) ≡ (
        if is_credential_failure result.kind && key_eq (key_of_lease lease) k
        then none
        else valid_bundle k d)
valid_bundle-feedback lease result k d =
    let key = key_of_lease lease in
    rw
      (
        valid_bundle-eq k (feedback lease result d),
        valid_bundle-eq k d,
        feedback-bundles lease result d,
      )
      (ground (arith, invalidate_found-valid (lookup key d.bundles) key k d refl))

all_invalid :
    (k : BundleKey) (d : KeyMap ClearanceBundle)
    → if_valid (lookup k (map_values invalidated d)) ≡ none
unfolding is_valid
all_invalid k d = rw (lookup-map_values invalidated k d) (elim (Option-cases (lookup k d)) [
  | inl absent ↦ rw absent refl
  | inr (bundle, there) ↦ rw there refl
])

reloaded-valid :
    (text_of_int : ℕ → String) (cfg : ProxyConfig) (k : BundleKey) (d : ProxyDirectory)
    → if_valid (lookup k (reloaded text_of_int cfg d).bundles) ≡ none
unfolding reloaded
reloaded-valid text_of_int cfg k d = all_invalid k (keep_keys (is_kept text_of_int cfg) d.bundles)

-- After a load of a configuration other than the last, and after an invalidation, no bundle is served
-- before it is refreshed, whatever its key.
pub valid_bundle-load :
    (text_of_int : ℕ → String) (cfg old : ProxyConfig) (k : BundleKey) (d : ProxyDirectory)
    → d.config_sig ≡ some old
    → same_config old cfg ≡ false
    → (valid_bundle k (load text_of_int cfg d) ≡ none)
      × (valid_bundle k (invalidate_clearance d) ≡ none)
unfolding load invalidate_clearance
valid_bundle-load text_of_int cfg old k d known other = (
  rw (valid_bundle-eq k (load text_of_int cfg d), load, known, other)
      (reloaded-valid text_of_int cfg k d),
  rw (valid_bundle-eq k (invalidate_clearance d)) (all_invalid k d.bundles),
)
