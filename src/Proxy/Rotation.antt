-- ===== src/Proxy/Rotation.antt =====
-- The nodes of a pool take turns (app/control/proxy/__init__.py, feedback and _pick_proxy_url).
use native.Mathlib.Nat.{mod-lt, mod-eq_of_lt, mod-add-mod, add-mod-mod, add-mod_right}
use grok2apinew.Prelude.{
  ℕ, zero, suc, ◌+◌, ◌-◌, ◌%◌, ◌<◌, ◌≡◌, refl, sym, ◌∙◌, ap, true, false, List, [], ◌∷◌, arith,
  length,
}
use grok2apinew.Proxy.{proxy_pool, EgressNode, ProxyLease, ProxyFeedback}
use grok2apinew.Proxy.Directory.{
  ProxyDirectory, url_at, nodes_for, pick_from, pick_proxy_url, has_url, is_node_failure, feedback,
  feedback_bundle, feedback_cursor,
}

-- The same feedback, n times.
unfoldable pub fed : ℕ → ProxyLease → ProxyFeedback → ProxyDirectory → ProxyDirectory
fed zero lease result d = d
fed (suc n) lease result d = fed n lease result (feedback lease result d)

-- Two directories of which one stands n places further in the same pool.
record IsTurned (n : ℕ) (d d' : ProxyDirectory) : Type 0 where
  mode : d'.egress_mode ≡ d.egress_mode
  nodes : d'.nodes ≡ d.nodes
  cursor : d'.pool_cursor ≡ n + d.pool_cursor

module _ (lease : ProxyLease) (result : ProxyFeedback) (proxied : has_url lease.proxy_url ≡ true)
    (failed : is_node_failure result.kind ≡ true) where
  one_turn :
      (d : ProxyDirectory) → d.egress_mode ≡ proxy_pool → IsTurned 1 d (feedback lease result d)
  unfolding feedback feedback_bundle feedback_cursor
  one_turn d pool = record {
    mode = ground (arith, proxied, failed, pool);
    nodes = ground (arith, proxied, failed, pool);
    cursor = ground (arith, proxied, failed, pool);
  }

  fed-IsTurned :
      (n : ℕ) (d : ProxyDirectory)
      → d.egress_mode ≡ proxy_pool
      → IsTurned n d (fed n lease result d)
  unfolding fed
  fed-IsTurned zero d pool = record { mode = refl; nodes = refl; cursor = omega arith }
  fed-IsTurned (suc n) d pool =
      let one = one_turn d pool in
      let more = fed-IsTurned n (feedback lease result d) (one.mode ∙ pool) in
      record {
        mode = more.mode ∙ one.mode;
        nodes = more.nodes ∙ one.nodes;
        cursor = omega (arith, more.cursor, one.cursor);
      }

-- How many turns it takes from a cursor to a place of a pool of n nodes.
turns : ℕ → ℕ → ℕ → ℕ
turns c i n = (i + (n - c % n)) % n

turns-reach : (c i n : ℕ) → i < n → (turns c i n + c) % n ≡ i
unfolding turns
turns-reach c i n lt =
    let q = c % n in
    let small : q < n = mod-lt c (omega arith) in
    let m = i + (n - q) in
    let sum : q + m ≡ i + n = omega arith in
    ap (λ x. x % n) (omega arith)
    ∙ add-mod-mod c m n
    ∙ sym (mod-add-mod c n m)
    ∙ ap (λ x. x % n) sum
    ∙ add-mod_right i n
    ∙ mod-eq_of_lt lt

picked :
    (c : ℕ) (nodes : List EgressNode)
    → pick_from proxy_pool c nodes ≡ url_at nodes (c % length nodes)
picked c [] = refl
picked c (node ∷ nodes) = refl

pick-pool :
    (d : ProxyDirectory)
    → d.egress_mode ≡ proxy_pool
    → pick_proxy_url false d ≡ url_at d.nodes (d.pool_cursor % length d.nodes)
unfolding pick_proxy_url nodes_for
pick-pool d pool =
    ap (λ mode. pick_from mode d.pool_cursor d.nodes) pool ∙ picked d.pool_cursor d.nodes

-- In a pool, a number of failures less than the number of its nodes, on leases with a proxy, brings the
-- next request to any place of the pool: no node is left out for good.
pub pick_proxy_url-fed :
    (lease : ProxyLease) (result : ProxyFeedback) (d : ProxyDirectory) (i : ℕ)
    → has_url lease.proxy_url ≡ true
    → is_node_failure result.kind ≡ true
    → d.egress_mode ≡ proxy_pool
    → i < length d.nodes
    → (n : ℕ) × (n < length d.nodes)
      × (pick_proxy_url false (fed n lease result d) ≡ url_at d.nodes i)
pick_proxy_url-fed lease result d i proxied failed pool lt =
    let n = turns d.pool_cursor i (length d.nodes) in
    let turned = fed-IsTurned lease result proxied failed n d pool in
    (
      n,
      unfold turns in mod-lt _ (omega arith),
      pick-pool (fed n lease result d) (turned.mode ∙ pool)
          ∙ rw (turned.nodes, turned.cursor, turns-reach d.pool_cursor i (length d.nodes) lt) refl,
    )
