-- ===== src/Common/Candle.antt =====
-- src/crypto_pipeline/common/models.py. A moment in time is its microseconds since the epoch, in
-- UTC; `D` is the type of the decimal values, which only the backtester computes with.
use crypto_market_data_pipel.Prelude.{ℕ, String}

pub record Candle (D : Type 0) : Type 0 where
  pub symbol : String
  pub ts : ℕ
  pub open_price : D
  pub high : D
  pub low : D
  pub close : D
  pub volume : D

-- One minute, in microseconds.
abbrev pub minute : ℕ
minute = 60_000_000
