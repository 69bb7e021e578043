-- ===== src/Backtest/Runner/Causal.antt =====
-- No look-ahead: the trades of a backtest up to a candle do not depend on the candles after it.
use crypto_market_data_pipel.Prelude.{ℕ, ◌≡◌, List, take}
use crypto_market_data_pipel.Common.Candle.{Candle}
use crypto_market_data_pipel.Backtest.Numbers.{Numbers}

-- A rolling mean depends on the values up to its own.
pub record IsCausal (n : Numbers) : Type 0 where
  pub rolling-take :
      (m window : ℕ) (xs ys : List n.F)
      → take m xs ≡ take m ys
      → take m (n.rolling_mean window xs) ≡ take m (n.rolling_mean window ys)

module _ (n : Numbers) where
  -- What the strategy sees of a candle before it closes: its time and its opening price.
  abbrev pub opening : Candle n.D → ℕ × n.D
  opening c = (c.ts, c.open_price)
