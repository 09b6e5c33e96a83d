-- ===== src/Registry/Numbers.antt =====
-- Python's floats and Decimals: the types and the operations that the registry uses of them.
use betpulse.Prelude.{ℕ, Bool}

pub record Numbers : Type 1 where
  pub F : Type 0
  pub lt : F → F → Bool
  pub eq : F → F → Bool
  pub is_finite : F → Bool
  pub add : F → F → F
  pub sub : F → F → F
  pub mul : F → F → F
  pub div : F → F → F
  pub abs : F → F
  -- `math.exp`, and `round(x, digits)`.
  pub exp : F → F
  pub round : F → ℕ → F
  pub zero : F
  pub ten : F
  pub hundred : F
  -- WEIGHT_SUM_TOLERANCE, 0.05, and the 0.01 of the rollback preview.
  pub tolerance : F
  pub hundredth : F
  pub D : Type 0
  -- `Decimal(str(x))`, and `float(d)`.
  pub decimal : F → D
  pub float : D → F
  pub zero_decimal : D
