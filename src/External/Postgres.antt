-- ===== src/External/Postgres.antt =====
-- What a float64 becomes in a NUMERIC column of Postgres: none where the column refuses it.
use trading_platform_backend.Prelude.{ℕ, Option, List}
use trading_platform_backend.Prelude.Int.{ℤ}

pub record NumericOps (F : Type 0) : Type 0 where
  -- NUMERIC(18, 8): prices, quantities and profits
  pub numeric_18_8 : F → Option F
  -- NUMERIC(5, 4): scores and indices
  pub numeric_5_4 : F → Option F
  -- AVG(...)::FLOAT8 of one or more values of NUMERIC(5, 4), which are given in ten-thousandths
  pub average_5_4 : List ℕ → F
  -- SUM(...)::FLOAT8 of one or more values of NUMERIC(18, 8)
  pub sum_18_8 : List F → F
  -- AVG(...)::FLOAT8 of one or more values of SMALLINT
  pub average_smallint : List ℤ → F
  -- AVG(...)::numeric(5, 4) of one or more values of SMALLINT; none where it does not fit
  pub average_to_5_4 : List ℤ → Option F
