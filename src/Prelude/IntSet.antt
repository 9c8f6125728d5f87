-- ===== src/Prelude/IntSet.antt =====
-- Python's `set[int]`, as the list of its members in the order of an iteration.
use Prim.Native.Nat.{ℕ}
use mathlib.Core.Path.{◌≡◌, refl}
use mathlib.Core.Bool.{Bool, true, false, ◌&&◌, ◌||◌, not}
use mathlib.Core.List.{List, [], ◌∷◌, ◌++◌}
use native.Mathlib.Omega.{arith}
use grok2apinew.Prelude.Tests.{◌==◌, if◌then◌else◌}

-- i in s
unfoldable pub mem : ℕ → List ℕ → Bool
mem i [] = false
mem i (x ∷ s) = x == i || mem i s

-- {x for x in s if keep(x)}
unfoldable pub filter : (ℕ → Bool) → List ℕ → List ℕ
filter keep [] = []
filter keep (x ∷ s) = let rest = filter keep s in if keep x then x ∷ rest else rest

-- s.add(i)
unfoldable pub add : ℕ → List ℕ → List ℕ
add i s = if mem i s then s else s ++ i ∷ []

-- s.discard(i)
unfoldable pub discard : ℕ → List ℕ → List ℕ
discard i s = filter (λ x. not (x == i)) s

-- s - t
unfoldable pub difference : List ℕ → List ℕ → List ℕ
difference s t = filter (λ x. not (mem x t)) s

-- s & t
unfoldable pub intersection : List ℕ → List ℕ → List ℕ
intersection s t = filter (λ x. mem x t) s

-- s | t
unfoldable pub union : List ℕ → List ℕ → List ℕ
union s [] = s
union s (x ∷ t) = union (add x s) t

-- bool(s)
unfoldable pub nonempty : List ℕ → Bool
nonempty [] = false
nonempty (x ∷ s) = true

pub mem-append : (i : ℕ) (s t : List ℕ) → mem i (s ++ t) ≡ (mem i s || mem i t)
unfolding mem
mem-append i [] t = refl
mem-append i (x ∷ s) t = ground (arith, mem-append i s t)

pub mem-filter :
    (keep : ℕ → Bool) (i : ℕ) (s : List ℕ) → mem i (filter keep s) ≡ (mem i s && keep i)
unfolding mem filter
mem-filter keep i [] = refl
mem-filter keep i (x ∷ s) = ground (arith, mem-filter keep i s)

pub mem-add : (j i : ℕ) (s : List ℕ) → mem j (add i s) ≡ (i == j || mem j s)
unfolding add mem
mem-add j i s = ground (arith, mem-append j s (i ∷ []))

pub mem-discard : (j i : ℕ) (s : List ℕ) → mem j (discard i s) ≡ (mem j s && not (j == i))
unfolding discard
mem-discard j i s = mem-filter (λ x. not (x == i)) j s

pub mem-difference : (j : ℕ) (s t : List ℕ) → mem j (difference s t) ≡ (mem j s && not (mem j t))
unfolding difference
mem-difference j s t = mem-filter (λ x. not (mem x t)) j s

pub mem-intersection : (j : ℕ) (s t : List ℕ) → mem j (intersection s t) ≡ (mem j s && mem j t)
unfolding intersection
mem-intersection j s t = mem-filter (λ x. mem x t) j s

pub mem-union : (j : ℕ) (s t : List ℕ) → mem j (union s t) ≡ (mem j s || mem j t)
unfolding union mem
mem-union j s [] = ground arith
mem-union j s (x ∷ t) = ground (arith, mem-union j (add x s) t, mem-add j x s)

pub nonempty_of_mem : (i : ℕ) (s : List ℕ) → mem i s ≡ true → nonempty s ≡ true
unfolding mem nonempty
nonempty_of_mem i [] h = h
nonempty_of_mem i (x ∷ s) h = refl

pub ruleset set_laws =
    (mem-append, mem-filter, mem-add, mem-discard, mem-difference, mem-intersection, mem-union)
