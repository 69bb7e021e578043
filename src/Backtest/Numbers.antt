-- ===== src/Backtest/Numbers.antt =====
-- The numbers of src/crypto_pipeline/backtest: Python's decimals in their context, floats, and the
-- conversion between them. Their rounding is theirs; no law of arithmetic is assumed of them.
-- A division and a `quantize` of decimals may raise: by zero, and to more digits than the context has.
use crypto_market_data_pipel.Prelude.{ℕ, Bool, Option, List, if◌then◌else◌}
use crypto_market_data_pipel.Common.Errors.{Result}

pub record Numbers : Type 1 where
  pub D : Type 0
  pub zero_d : D
  pub one : D
  pub add : D → D → D
  pub sub : D → D → D
  pub mul : D → D → D
  pub div : D → D → Result D
  -- `quantize(Decimal("1e-8"), rounding=ROUND_DOWN)`
  pub quantize : D → Result D
  pub ltb_d : D → D → Bool
  pub isna : D → Bool
  pub F : Type 0
  pub float : D → F
  pub zero_f : F
  pub one_f : F
  pub add_f : F → F → F
  pub sub_f : F → F → F
  pub mul_f : F → F → F
  pub div_f : F → F → F
  pub ltb_f : F → F → Bool
  -- A quotient of two integers, and `math.sqrt` of one.
  pub ratio : ℕ → ℕ → F
  pub sqrt : ℕ → F
  -- `int(n * ratio)`
  pub scale : F → ℕ → ℕ
  -- Of pandas: `rolling(window=…, min_periods=…).mean()`, `pct_change().dropna()`, `mean()`, and
  -- `std()`, with `none` for NaN.
  pub rolling_mean : ℕ → List F → List (Option F)
  pub pct_change : List F → List F
  pub mean : List F → F
  pub std : List F → Option F

module _ (n : Numbers) where
  -- `max(x, y)` and `min(x, y)` keep the first of equals.
  abbrev pub max_d : n.D → n.D → n.D
  max_d x y = if n.ltb_d x y then y else x

  abbrev pub min_d : n.D → n.D → n.D
  min_d x y = if n.ltb_d y x then y else x
