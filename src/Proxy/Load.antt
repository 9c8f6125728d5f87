-- ===== src/Proxy/Load.antt =====
-- app/control/proxy/__init__.py: load. `text_of_int` is Python's str(int), for the name of a node of a pool.
use grok2apinew.Prelude.{
  ℕ, suc, String, Bool, true, false, ◌&&◌, none, some, List, [], ◌∷◌, ◌++◌, if◌then◌else◌,
}
use grok2apinew.Prelude.Int.{int_beq}
use text.Mathlib.Text.{◌==◌ as str_eq}
use Prim.Native.String
use grok2apinew.Account.Normalize.{has_text}
use grok2apinew.Proxy.{
  direct, single_proxy, proxy_pool, ClearanceMode, no_clearance, manual, flaresolverr, EgressNode,
}
use grok2apinew.Proxy.Bundles.{BundleKey, keep_keys, map_values}
use grok2apinew.Proxy.Directory.{ProxyConfig, ProxyDirectory, same_egress, affinity_of, invalidated}

abbrev pub same_clearance : ClearanceMode → ClearanceMode → Bool
same_clearance no_clearance no_clearance = true
same_clearance manual manual = true
same_clearance flaresolverr flaresolverr = true
same_clearance _ _ = false

abbrev pub same_texts : List String → List String → Bool
same_texts [] [] = true
same_texts (x ∷ xs) (y ∷ ys) = str_eq x y && same_texts xs ys
same_texts _ _ = false

-- The comparison of two signatures.
unfoldable pub same_config : ProxyConfig → ProxyConfig → Bool
same_config a b =
    same_egress a.egress_mode b.egress_mode
    && same_clearance a.clearance_mode b.clearance_mode
    && str_eq a.base_url b.base_url
    && str_eq a.res_url b.res_url
    && same_texts a.base_pool b.base_pool
    && same_texts a.res_pool b.res_pool
    && str_eq a.flaresolverr_url b.flaresolverr_url
    && str_eq a.cf_cookies b.cf_cookies
    && str_eq a.user_agent b.user_agent
    && str_eq a.cf_clearance b.cf_clearance
    && str_eq a.browser b.browser
    && int_beq a.timeout_sec b.timeout_sec

abbrev node_if_url : String → String → List EgressNode
node_if_url node_id url =
    if str_eq url "" then [] else record { node_id = node_id; proxy_url = some url } ∷ []

module _ (text_of_int : ℕ → String) where
  abbrev pool_nodes : String → ℕ → List String → List EgressNode
  pool_nodes name i [] = []
  pool_nodes name i (url ∷ urls) =
      record { node_id = String.◌++◌ name (text_of_int i); proxy_url = some url }
      ∷ pool_nodes name (suc i) urls

  unfoldable pub base_nodes : ProxyConfig → List EgressNode
  base_nodes cfg = elim cfg.egress_mode [
    | direct ↦ []
    | single_proxy ↦ node_if_url "single" cfg.base_url
    | proxy_pool ↦ pool_nodes "pool-" 0 cfg.base_pool
  ]

  unfoldable pub media_nodes : ProxyConfig → List EgressNode
  media_nodes cfg = elim cfg.egress_mode [
    | direct ↦ []
    | single_proxy ↦ node_if_url "res-single" cfg.res_url
    | proxy_pool ↦ pool_nodes "res-pool-" 0 cfg.res_pool
  ]

  abbrev affinities : List EgressNode → List String
  affinities [] = []
  affinities (node ∷ nodes) = affinity_of node.proxy_url ∷ affinities nodes

  abbrev or_direct : List String → List String
  or_direct [] = "direct" ∷ []
  or_direct (x ∷ xs) = x ∷ xs

  unfoldable pub valid_affinities : ProxyConfig → List String
  unfolding base_nodes media_nodes affinity_of
  valid_affinities cfg = or_direct (affinities (base_nodes cfg ++ media_nodes cfg))

  unfoldable pub is_kept : ProxyConfig → BundleKey → Bool
  unfolding valid_affinities has_text
  is_kept cfg (affinity, host) = has_text affinity (valid_affinities cfg)

  unfoldable pub reloaded : ProxyConfig → ProxyDirectory → ProxyDirectory
  unfolding base_nodes media_nodes is_kept keep_keys map_values
  reloaded cfg d = record {
    nodes = base_nodes cfg;
    resource_nodes = media_nodes cfg;
    bundles = map_values invalidated (keep_keys (is_kept cfg) d.bundles);
    refresh_events = keep_keys (is_kept cfg) d.refresh_events;
    egress_mode = cfg.egress_mode;
    clearance_mode = cfg.clearance_mode;
    config_sig = some cfg;
    pool_cursor = 0;
  }

  -- load, with the configuration of the moment
  unfoldable pub load : ProxyConfig → ProxyDirectory → ProxyDirectory
  unfolding same_config reloaded
  load cfg d = elim d.config_sig [
    | none ↦ reloaded cfg d
    | some old ↦ if same_config old cfg then d else reloaded cfg d
  ]
