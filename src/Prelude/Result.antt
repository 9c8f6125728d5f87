-- ===== src/Prelude/Result.antt =====
-- What a Python call gives: a value, or one of the built-in exceptions.
use mathlib.Core.Path.{◌≡◌, refl}

pub data Exn : Type 0 where
  type_error value_error index_error key_error overflow_error runtime_error : Exn

-- `err` stands for the exception that the call raises.
pub data Result {κ} (V : Type κ) : Type κ where
  err : Exn → Result V
  ok : V → Result V

-- The rest of a function body, after a call that may raise.
infixl 5 ◌>>=◌
abbrev pub ◌>>=◌ {κ μ} : {V : Type κ} {W : Type μ} → Result V → (V → Result W) → Result W
err raised >>= rest = err raised
ok value >>= rest = rest value

-- Inversion of a successful bind, for proofs where the parts stay shut.
pub >>=-eq-ok {κ μ} :
    {V : Type κ} {W : Type μ} (m : Result V) (rest : V → Result W) {b : W}
    → (m >>= rest) ≡ ok b
    → (v : V) × (m ≡ ok v) × (rest v ≡ ok b)
>>=-eq-ok (err raised) rest h = cc
>>=-eq-ok (ok value) rest h = (value, refl, h)
