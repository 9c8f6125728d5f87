-- ===== src/Prelude/SetMap.antt =====
-- A `dict` from keys to sets of slot indexes: its keys in insertion order, and the set that stands
-- at each key (empty where the key is missing, which the program treats alike).
use Prim.Native.Nat.{ℕ}
use Prim.Native.String.{String}
use mathlib.Core.Path.{◌≡◌}
use mathlib.Core.Logic.{◌↔◌, inl, inr}
use mathlib.Core.Bool.{Bool, true, false, ◌&&◌, ◌||◌, not}
use mathlib.Core.List.{List, [], ◌∷◌, ◌++◌}
use native.Mathlib.Omega.{arith}
use text.Mathlib.Text.{◌==◌ as str_eq}
use text.Mathlib.TextEquality.{eq_iff}
use grok2apinew.Prelude.Tests.{◌==◌ as nat_eq, if◌then◌else◌, Bool-cases}
use grok2apinew.Prelude.IntSet
use grok2apinew.Prelude.IntSet.{mem, mem-add, mem-discard}

pub record Eq {ℓ} (A : Type ℓ) : Type ℓ where
  pub beq : A → A → Bool
  pub beq_iff : (a b : A) → (beq a b ≡ true) ↔ (a ≡ b)

instance abbrev pub String_eq : Eq String
String_eq = record { beq = str_eq; beq_iff = eq_iff }

abbrev pub pair_beq : ℕ × ℕ → ℕ × ℕ → Bool
pair_beq a b = nat_eq a.0 b.0 && nat_eq a.1 b.1

pub pair_beq_iff : (a b : ℕ × ℕ) → (pair_beq a b ≡ true) ↔ (a ≡ b)
pair_beq_iff (a, b) (c, d) = ground arith

instance abbrev pub pair_eq : Eq (ℕ × ℕ)
pair_eq = record { beq = pair_beq; beq_iff = pair_beq_iff }

pub record SetMap (K : Type 0) : Type 0 where
  pub keys : List K
  pub bucket : K → List ℕ

module _ {K : Type 0} ⦃e : Eq K⦄ where
  unfoldable pub has_key : K → List K → Bool
  has_key k [] = false
  has_key k (j ∷ js) = e.beq j k || has_key k js

  -- d.setdefault(key, set())
  unfoldable pub touch : K → SetMap K → SetMap K
  touch k d = record {
    keys = if has_key k d.keys then d.keys else d.keys ++ k ∷ [];
    bucket = d.bucket;
  }

  -- d.setdefault(key, set()).add(i)
  unfoldable pub add_at : K → ℕ → SetMap K → SetMap K
  unfolding touch
  add_at k i d = record {
    keys = (touch k d).keys;
    bucket = λ j. if e.beq k j then IntSet.add i (d.bucket j) else d.bucket j;
  }

  -- bucket = d.get(key); if bucket: bucket.discard(i)
  unfoldable pub discard_at : K → ℕ → SetMap K → SetMap K
  discard_at k i d = record {
    keys = d.keys;
    bucket = λ j. if e.beq k j then IntSet.discard i (d.bucket j) else d.bucket j;
  }

  -- i stands in the set at the key
  unfoldable pub holds : SetMap K → K → ℕ → Bool
  holds d k i = mem i (d.bucket k)

  pub holds-touch : (d : SetMap K) (k j : K) (n : ℕ) → holds (touch k d) j n ≡ holds d j n
  unfolding holds touch
  holds-touch d k j n = ground arith

  pub holds-add_at :
      (d : SetMap K) (k j : K) (i n : ℕ)
      → holds (add_at k i d) j n ≡ (e.beq k j && nat_eq i n || holds d j n)
  unfolding holds add_at
  holds-add_at d k j i n = ground (arith, mem-add n i (d.bucket j))

  pub holds-discard_at :
      (d : SetMap K) (k j : K) (i n : ℕ)
      → holds (discard_at k i d) j n ≡ (holds d j n && not (e.beq k j && nat_eq n i))
  unfolding holds discard_at
  holds-discard_at d k j i n = ground (arith, mem-discard n i (d.bucket j))

  pub has_key-append :
      (k : K) (js ls : List K) → has_key k (js ++ ls) ≡ (has_key k js || has_key k ls)
  unfolding has_key
  has_key-append k [] ls = ground arith
  has_key-append k (j ∷ js) ls = ground (arith, has_key-append k js ls)

  pub has_key-touch :
      (k j : K) (d : SetMap K) → has_key j (touch k d).keys ≡ (e.beq k j || has_key j d.keys)
  unfolding touch has_key
  has_key-touch k j d = elim (Bool-cases (has_key k d.keys)) [
    | inl old ↦ rw old (elim (Bool-cases (e.beq k j)) [
      | inl same ↦ cc (same, old, (e.beq_iff k j).0 same)
      | inr other ↦ rw other
    ])
    | inr new ↦ rw new (ground (arith, has_key-append j d.keys (k ∷ [])))
  ]

  -- bool(d.get(key)) and the like read no more than this
  pub has_key-discard_at :
      (k j : K) (i : ℕ) (d : SetMap K) → has_key j (discard_at k i d).keys ≡ has_key j d.keys
  unfolding discard_at
  has_key-discard_at k j i d = ground arith
