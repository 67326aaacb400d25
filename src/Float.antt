-- ===== src/Float.antt =====
-- The floating-point arithmetic of Go, as an interface: the program's `float64` and `float32` are
-- two values of it.
use heindall.Prelude.{ℕ, Bool}
use heindall.Prelude.Int.{ℤ}

pub record Float : Type 1 where
  pub Carrier : Type 0
  -- The conversion of an integer.
  pub of_int : ℤ → Carrier
  -- The literal for the integer over a power of ten.
  pub decimal : ℤ → ℕ → Carrier
  pub add : Carrier → Carrier → Carrier
  pub sub : Carrier → Carrier → Carrier
  pub mul : Carrier → Carrier → Carrier
  pub quo : Carrier → Carrier → Carrier
  pub neg : Carrier → Carrier
  pub lt : Carrier → Carrier → Bool
  pub le : Carrier → Carrier → Bool
  -- The conversion to `int16`.
  pub to_int16 : Carrier → ℤ
