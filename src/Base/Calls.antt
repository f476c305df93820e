-- ===== src/Base/Calls.antt =====
-- Calls that may throw.
use mathlib.Core.Path.{◌≡◌, refl}

pub data Result {ℓ} (E A : Type ℓ) : Type ℓ where
  err : (thrown : E) → Result E A
  ok : (value : A) → Result E A

module _ {Thrown : Type 0} where
  infixl 5 ◌>>◌ ◌>>=◌
  -- The rest of a function after a call, skipped if the call throws.
  abbrev pub ◌>>=◌ :
      {First Last : Type 0}
      → Result Thrown First
      → (First → Result Thrown Last)
      → Result Thrown Last
  err thrown >>= rest = err thrown
  ok value >>= rest = rest value

  abbrev pub ◌>>◌ :
      {Last : Type 0} → Result Thrown (Unit {0}) → Result Thrown Last → Result Thrown Last
  err thrown >> rest = err thrown
  ok value >> rest = rest

  -- A function that returns has made its first call return.
  pub >>=-eq-ok :
      {First Last : Type 0} (call : Result Thrown First) (rest : First → Result Thrown Last)
      {result : Last}
      → (call >>= rest) ≡ ok result
      → (value : First) × (call ≡ ok value) × (rest value ≡ ok result)
  >>=-eq-ok (err thrown) rest returns = cc
  >>=-eq-ok (ok value) rest returns = (value, refl, returns)
