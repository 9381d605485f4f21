-- ===== src/External/Float.antt =====
-- float64. antt has no floats: the type and the operations that the code uses are a parameter.
use trading_platform_backend.Prelude.{Bool}
use trading_platform_backend.Prelude.Int.{ℤ}

pub record FloatOps (F : Type 0) : Type 0 where
  pub neg : F → F
  pub add : F → F → F
  pub sub : F → F → F
  pub mul : F → F → F
  pub div : F → F → F
  -- a < b
  pub less : F → F → Bool
  -- a <= b
  pub at_most : F → F → Bool
  -- float64(n)
  pub of_int : ℤ → F
  -- the literal 0.5
  pub half : F
  -- float64(int64(x))
  pub trunc : F → F
