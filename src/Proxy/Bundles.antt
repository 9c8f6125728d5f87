-- ===== src/Proxy/Bundles.antt =====
-- Dictionaries under pairs of an affinity and a host, the `BundleKey` of app/control/proxy/__init__.py, as the
-- lists of their items in insertion order.
use grok2apinew.Prelude.{
  ◌≡◌, refl, String, Bool, true, ◌&&◌, Option, none, some, List, [], ◌∷◌, arith, if◌then◌else◌,
}
use text.Mathlib.Text.{◌==◌ as str_eq}
use text.Mathlib.TextEquality.{eq_iff}

abbrev pub BundleKey : Type 0
BundleKey = String × String

unfoldable pub key_eq : BundleKey → BundleKey → Bool
key_eq (a, h) (b, k) = str_eq a b && str_eq h k

abbrev pub KeyMap {ℓ} : Type ℓ → Type ℓ
KeyMap V = List (BundleKey × V)

pub key_eq_refl : (k : BundleKey) → key_eq k k ≡ true
unfolding key_eq
key_eq_refl (a, h) = ground (arith, eq_iff a a, eq_iff h h)

pub key_eq→≡ : (j k : BundleKey) → key_eq j k ≡ true → j ≡ k
unfolding key_eq
key_eq→≡ (a, h) (b, k) e = ground (arith, eq_iff a b, eq_iff h k)

module _ {ℓ} {V : Type ℓ} where
  -- d.get(key)
  unfoldable pub lookup : BundleKey → KeyMap V → Option V
  unfolding key_eq
  lookup k [] = none
  lookup k ((j, v) ∷ d) = if key_eq j k then some v else lookup k d

  -- d[key] = value
  unfoldable pub insert : BundleKey → V → KeyMap V → KeyMap V
  unfolding key_eq
  insert k v [] = (k, v) ∷ []
  insert k v ((j, w) ∷ d) = if key_eq j k then (k, v) ∷ d else (j, w) ∷ insert k v d

  -- d.pop(key, None)
  unfoldable pub erase : BundleKey → KeyMap V → KeyMap V
  unfolding key_eq
  erase k [] = []
  erase k ((j, w) ∷ d) = let rest = erase k d in if key_eq j k then rest else (j, w) ∷ rest

  -- {k: v for k, v in d.items() if keep(k)}
  unfoldable pub keep_keys : (BundleKey → Bool) → KeyMap V → KeyMap V
  keep_keys keep [] = []
  keep_keys keep ((j, w) ∷ d) =
      let rest = keep_keys keep d in if keep j then (j, w) ∷ rest else rest

  -- {k: f(v) for k, v in d.items()}
  unfoldable pub map_values : (V → V) → KeyMap V → KeyMap V
  map_values f [] = []
  map_values f ((j, w) ∷ d) = (j, f w) ∷ map_values f d

  -- list(d.keys())
  unfoldable pub keys : KeyMap V → List BundleKey
  keys [] = []
  keys ((j, w) ∷ d) = j ∷ keys d

  pub lookup-insert :
      (k j : BundleKey) (v : V) (d : KeyMap V)
      → lookup j (insert k v d) ≡ (if key_eq k j then some v else lookup j d)
  unfolding lookup insert key_eq
  lookup-insert (a, h) (b, i) v [] = refl
  lookup-insert (a, h) (b, i) v (((c, l), w) ∷ d) = ground (
    arith,
    eq_iff a b,
    eq_iff h i,
    eq_iff c a,
    eq_iff l h,
    eq_iff c b,
    eq_iff l i,
    lookup-insert (a, h) (b, i) v d,
  )

  pub lookup-erase :
      (k j : BundleKey) (d : KeyMap V)
      → lookup j (erase k d) ≡ (if key_eq k j then none else lookup j d)
  unfolding lookup erase key_eq
  lookup-erase (a, h) (b, i) [] = ground arith
  lookup-erase (a, h) (b, i) (((c, l), w) ∷ d) = ground (
    arith,
    eq_iff a b,
    eq_iff h i,
    eq_iff c a,
    eq_iff l h,
    eq_iff c b,
    eq_iff l i,
    lookup-erase (a, h) (b, i) d,
  )

  pub lookup-keep_keys :
      (keep : BundleKey → Bool) (k : BundleKey) (d : KeyMap V)
      → lookup k (keep_keys keep d) ≡ (if keep k then lookup k d else none)
  unfolding lookup keep_keys
  lookup-keep_keys keep k [] = ground arith
  lookup-keep_keys keep k ((j, w) ∷ d) = ground (arith, key_eq→≡ j k, lookup-keep_keys keep k d)

  pub lookup-map_values :
      (f : V → V) (k : BundleKey) (d : KeyMap V)
      → lookup k (map_values f d) ≡ elim (lookup k d) [ none ↦ none | some v ↦ some (f v) ]
  unfolding lookup map_values key_eq
  lookup-map_values f k [] = refl
  lookup-map_values f k ((j, w) ∷ d) = ground (arith, lookup-map_values f k d)
