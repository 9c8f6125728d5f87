-- ===== src/Proxy/Refresh.antt =====
-- app/control/proxy/__init__.py, refresh_clearance_safe: the scheduled refresh. `host_of` stands for
-- _clearance_host, which parses a URL, and `provider` for the answer of the manual provider or FlareSolverr.
use grok2apinew.Prelude.{
  ◌≡◌, refl, ◌⊎◌, inl, inr, String, Option, none, some, List, [], ◌∷◌, if◌then◌else◌, Bool-cases,
}
use Prim.Native.String
use text.Mathlib.Text.{◌==◌ as str_eq}
use grok2apinew.Proxy.{ClearanceMode, no_clearance, EgressNode, ClearanceBundle}
use grok2apinew.Proxy.Bundles.{
  BundleKey, KeyMap, key_eq, key_eq→≡, lookup, insert, keys, lookup-insert,
}
use grok2apinew.Proxy.Directory.{ProxyDirectory, affinity_of}

-- n.proxy_url or ""
abbrev url_or_empty : Option String → String
url_or_empty none = ""
url_or_empty (some url) = url

abbrev pub default_origin : String
default_origin = "https://grok.com"

-- (n.proxy_url or "direct", n.proxy_url or "") for each node
abbrev items_of : List EgressNode → List (String × String)
items_of [] = []
items_of (node ∷ nodes) = (affinity_of node.proxy_url, url_or_empty node.proxy_url) ∷ items_of nodes

abbrev default_items : List EgressNode → List (String × String)
default_items [] = ("direct", "") ∷ []
default_items (node ∷ nodes) = items_of (node ∷ nodes)

module _ (host_of : String → String) where
  abbrev add_defaults : List (String × String) → KeyMap (String × String) → KeyMap (String × String)
  add_defaults [] targets = targets
  add_defaults ((affinity, url) ∷ items) targets =
      add_defaults items (insert (affinity, host_of default_origin) (url, default_origin) targets)

  -- refresh_targets.setdefault for each existing key
  abbrev add_existing : List BundleKey → KeyMap (String × String) → KeyMap (String × String)
  add_existing [] targets = targets
  add_existing ((affinity, host) ∷ ks) targets =
      let item : String × String =
        (if str_eq affinity "direct" then "" else affinity, String.◌++◌ "https://" host) in
      add_existing ks (elim (lookup (affinity, host) targets) [
        | none ↦ insert (affinity, host) item targets
        | some old ↦ targets
      ])

  unfoldable pub refresh_targets : ProxyDirectory → KeyMap (String × String)
  unfolding affinity_of lookup insert keys
  refresh_targets d = add_existing (keys d.bundles) (add_defaults (default_items d.nodes) [])

  module _ (provider : BundleKey → String → String → Option ClearanceBundle) where
    abbrev put_new :
        Option ClearanceBundle → BundleKey → KeyMap ClearanceBundle → KeyMap ClearanceBundle
    put_new none key bundles = bundles
    put_new (some bundle) key bundles = insert key bundle bundles

    unfoldable pub refresh_each :
        KeyMap (String × String) → KeyMap ClearanceBundle → KeyMap ClearanceBundle
    unfolding insert
    refresh_each [] bundles = bundles
    refresh_each ((key, (url, origin)) ∷ targets) bundles =
        refresh_each targets (put_new (provider key url origin) key bundles)

    abbrev refresh_in : ClearanceMode → ProxyDirectory → ProxyDirectory
    refresh_in no_clearance d = d
    refresh_in _ d = record d { bundles = refresh_each (refresh_targets d) d.bundles }

    unfoldable pub refresh_clearance_safe : ProxyDirectory → ProxyDirectory
    unfolding refresh_targets refresh_each
    refresh_clearance_safe d = refresh_in d.clearance_mode d

    -- The bundle of a key is the old one, or one that the provider gave for the key.
    abbrev pub IsKeptOrNew : BundleKey → ClearanceBundle → KeyMap ClearanceBundle → Type 0
    IsKeptOrNew k old bundles =
        (lookup k bundles ≡ some old)
        ⊎ ((new : ClearanceBundle) × (url : String) × (origin : String) × (provider k url origin
              ≡ some new)
            × (lookup k bundles ≡ some new))

    put_one :
        (o : Option ClearanceBundle) (key k : BundleKey) (url origin : String)
        (old : ClearanceBundle) (bundles : KeyMap ClearanceBundle)
        → provider key url origin ≡ o
        → IsKeptOrNew k old bundles
        → IsKeptOrNew k old (put_new o key bundles)
    put_one none key k url origin old bundles e h = h
    put_one (some new) key k url origin old bundles e h = elim (Bool-cases (key_eq key k)) [
      | inl same ↦
          let one = key_eq→≡ key k same in
          inr (new, url, origin, rw (← one) e, rw (lookup-insert key k new bundles, same) refl)
      | inr other ↦ elim h [
        | inl kept ↦ inl (rw (lookup-insert key k new bundles, other) kept)
        | inr (given, u, g, p, there) ↦
            inr (given, u, g, p, rw (lookup-insert key k new bundles, other) there)
      ]
    ]

    refresh_each-IsKeptOrNew :
        (targets : KeyMap (String × String)) (k : BundleKey) (old : ClearanceBundle)
        (bundles : KeyMap ClearanceBundle)
        → IsKeptOrNew k old bundles
        → IsKeptOrNew k old (refresh_each targets bundles)
    unfolding refresh_each
    refresh_each-IsKeptOrNew [] k old bundles h = h
    refresh_each-IsKeptOrNew ((key, (url, origin)) ∷ targets) k old bundles h =
        refresh_each-IsKeptOrNew targets k old (put_new (provider key url origin) key bundles)
          (put_one (provider key url origin) key k url origin old bundles refl h)

    by_mode :
        (mode : ClearanceMode) (d : ProxyDirectory) (k : BundleKey) (old : ClearanceBundle)
        → lookup k d.bundles ≡ some old
        → IsKeptOrNew k old (refresh_in mode d).bundles
    by_mode no_clearance d k old e = inl e
    by_mode _ d k old e = refresh_each-IsKeptOrNew (refresh_targets d) k old d.bundles (inl e)

    -- The scheduled refresh takes no bundle away: the bundle of a key is afterwards the one that was there, or
    -- one that the provider gave for the key.
    pub refresh_clearance_safe-IsKeptOrNew :
        (d : ProxyDirectory) (k : BundleKey) (old : ClearanceBundle)
        → lookup k d.bundles ≡ some old
        → IsKeptOrNew k old (refresh_clearance_safe d).bundles
    unfolding refresh_clearance_safe
    refresh_clearance_safe-IsKeptOrNew d k old e = by_mode d.clearance_mode d k old e
