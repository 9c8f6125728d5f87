-- ===== src/Proxy/Directory.antt =====
-- app/control/proxy/__init__.py: the ProxyDirectory, without its network calls. A method that takes the lock
-- once is one step.
use grok2apinew.Prelude.{
  ℕ, suc, ◌%◌, String, Bool, true, false, ◌&&◌, not, Option, none, some, List, [], ◌∷◌, length,
  get_elem?, if◌then◌else◌,
}
use grok2apinew.Prelude.Int.{ℤ}
use text.Mathlib.Text.{◌==◌ as str_eq}
use grok2apinew.Proxy.{
  EgressMode, direct, single_proxy, proxy_pool, ClearanceMode, no_clearance, invalid,
  ProxyFeedbackKind, challenge, unauthorized, forbidden, transport_error, EgressNode,
  ClearanceBundle, ProxyLease, ProxyFeedback,
}
use grok2apinew.Proxy.Bundles.{BundleKey, KeyMap, lookup, insert, map_values}

-- The configuration values that load reads, which are also its signature.
pub record ProxyConfig : Type 0 where
  pub egress_mode : EgressMode
  pub clearance_mode : ClearanceMode
  pub base_url : String
  pub res_url : String
  pub base_pool : List String
  pub res_pool : List String
  pub flaresolverr_url : String
  pub cf_cookies : String
  pub user_agent : String
  pub cf_clearance : String
  pub browser : String
  pub timeout_sec : ℤ

-- The events are numbered in the order in which they are made.
pub record ProxyDirectory : Type 0 where
  pub nodes : List EgressNode
  pub resource_nodes : List EgressNode
  pub bundles : KeyMap ClearanceBundle
  pub refresh_events : KeyMap ℕ
  pub egress_mode : EgressMode
  pub clearance_mode : ClearanceMode
  pub config_sig : Option ProxyConfig
  pub pool_cursor : ℕ

-- ProxyDirectory()
abbrev pub new_directory : ProxyDirectory
new_directory = record {
  nodes = [];
  resource_nodes = [];
  bundles = [];
  refresh_events = [];
  egress_mode = direct;
  clearance_mode = no_clearance;
  config_sig = none;
  pool_cursor = 0;
}

abbrev pub same_egress : EgressMode → EgressMode → Bool
same_egress direct direct = true
same_egress single_proxy single_proxy = true
same_egress proxy_pool proxy_pool = true
same_egress _ _ = false

-- proxy_url or "direct"
unfoldable pub affinity_of : Option String → String
affinity_of none = "direct"
affinity_of (some url) = if str_eq url "" then "direct" else url

-- bundle.model_copy(update={"state": INVALID})
abbrev pub invalidated : ClearanceBundle → ClearanceBundle
invalidated bundle = record bundle { state = invalid }

abbrev first_url : List EgressNode → Option String
first_url [] = none
first_url (node ∷ nodes) = node.proxy_url

abbrev pub url_at : List EgressNode → ℕ → Option String
url_at nodes i = elim (get_elem? nodes i) [ none ↦ none | some node ↦ node.proxy_url ]

-- The nodes of a request: those for resources if it is for one and there are any.
unfoldable pub nodes_for : Bool → ProxyDirectory → List EgressNode
nodes_for resource d =
    if resource
    then elim d.resource_nodes [ [] ↦ d.nodes | node ∷ nodes ↦ node ∷ nodes ]
    else d.nodes

abbrev pub pick_from : EgressMode → ℕ → List EgressNode → Option String
pick_from mode cursor [] = none
pick_from direct cursor (node ∷ nodes) = none
pick_from single_proxy cursor (node ∷ nodes) = node.proxy_url
pick_from proxy_pool cursor (node ∷ nodes) = url_at (node ∷ nodes) (cursor % length (node ∷ nodes))

-- _pick_proxy_url
unfoldable pub pick_proxy_url : Bool → ProxyDirectory → Option String
unfolding nodes_for
pick_proxy_url resource d = pick_from d.egress_mode d.pool_cursor (nodes_for resource d)

abbrev pub invalidate_found : Option ClearanceBundle → BundleKey → ProxyDirectory → ProxyDirectory
invalidate_found none key d = d
invalidate_found (some bundle) key d = record d {
  bundles = insert key (invalidated bundle) d.bundles;
}

unfoldable pub is_credential_failure : ProxyFeedbackKind → Bool
is_credential_failure challenge = true
is_credential_failure unauthorized = true
is_credential_failure _ = false

unfoldable pub is_node_failure : ProxyFeedbackKind → Bool
is_node_failure challenge = true
is_node_failure unauthorized = true
is_node_failure forbidden = true
is_node_failure transport_error = true
is_node_failure _ = false

-- bool(url)
unfoldable pub has_url : Option String → Bool
has_url none = false
has_url (some url) = not (str_eq url "")

-- The first half of feedback, under the lock.
unfoldable pub feedback_bundle : ProxyLease → ProxyFeedback → ProxyDirectory → ProxyDirectory
unfolding is_credential_failure affinity_of lookup insert
feedback_bundle lease result d =
    let key : BundleKey = (affinity_of lease.proxy_url, lease.clearance_host) in
    if is_credential_failure result.kind then invalidate_found (lookup key d.bundles) key d else d

-- The second half: another node of the pool is next.
unfoldable pub feedback_cursor : ProxyLease → ProxyFeedback → ProxyDirectory → ProxyDirectory
unfolding is_node_failure has_url
feedback_cursor lease result d =
    if same_egress d.egress_mode proxy_pool
      && has_url lease.proxy_url
      && is_node_failure result.kind
    then record d { pool_cursor = suc d.pool_cursor }
    else d

unfoldable pub feedback : ProxyLease → ProxyFeedback → ProxyDirectory → ProxyDirectory
unfolding feedback_bundle feedback_cursor
feedback lease result d = feedback_cursor lease result (feedback_bundle lease result d)

unfoldable pub invalidate_clearance : ProxyDirectory → ProxyDirectory
unfolding map_values
invalidate_clearance d = record d { bundles = map_values invalidated d.bundles }

abbrev cookies_of : Option ClearanceBundle → String
cookies_of none = ""
cookies_of (some bundle) = bundle.cf_cookies

abbrev agent_of : Option ClearanceBundle → String
agent_of none = ""
agent_of (some bundle) = bundle.user_agent

-- The end of acquire.
unfoldable pub lease_for : Option String → String → Option ClearanceBundle → ProxyLease
lease_for proxy_url host bundle = record {
  proxy_url = proxy_url;
  cf_cookies = cookies_of bundle;
  user_agent = agent_of bundle;
  clearance_host = host;
}
