-- ===== src/Prelude/Float.antt =====
-- Python's floats, as a parameter: the operations that the program calls, and the facts on `<` that
-- it relies on. Both facts hold of IEEE 754 numbers, `nan` included.
use Prim.Native.Nat.{ℕ}
use mathlib.Core.Path.{◌≡◌}
use mathlib.Core.Bool.{Bool, true, false}
use grok2apinew.Prelude.Tests.{if◌then◌else◌}
use grok2apinew.Prelude.Int.{ℤ}

pub record Float : Type 1 where
  pub Number : Type 0
  -- decimal n k is the literal n / 10 ^ k
  pub decimal : ℤ → ℕ → Number
  pub of_int : ℤ → Number
  pub plus : Number → Number → Number
  pub minus : Number → Number → Number
  pub times : Number → Number → Number
  pub over : Number → Number → Number
  pub lt : Number → Number → Bool

-- min(a, b) and max(a, b)
module _ (f : Float) where
  abbrev pub smaller : f.Number → f.Number → f.Number
  smaller a b = if f.lt b a then b else a

  abbrev pub larger : f.Number → f.Number → f.Number
  larger a b = if f.lt a b then b else a

pub record FloatLaws (f : Float) : Type 0 where
  pub lt_irrefl : (a : f.Number) → f.lt a a ≡ false
  pub lt_trans : (a b c : f.Number) → f.lt a b ≡ true → f.lt b c ≡ true → f.lt a c ≡ true
