-- ===== src/Api/Queries.antt =====
-- src/crypto_pipeline/api/queries.py: what the SQL statements select from the rows of the table.
pub mod Limits
pub mod Symbols
pub mod Views
use crypto_market_data_pipel.Prelude.{
  ℕ, zero, suc, ◌+◌, Bool, true, false, ◌&&◌, ◌||◌, List, [], ◌∷◌, leb, ltb, String, str_eq, length,
  take, filterb, if◌then◌else◌,
}
use crypto_market_data_pipel.Common.Candle.{Candle}
use crypto_market_data_pipel.Writer.Table.{order_by_ts}

abbrev pub known : String → List String → Bool
known s [] = false
known s (x ∷ xs) = str_eq x s || known s xs

-- `INTERVALS` of models.py
pub data Interval : Type 0 where
  one_minute one_hour : Interval

module _ {D : Type 0} where
  -- SELECT DISTINCT symbol FROM candles_1m
  unfoldable pub list_symbols : List (Candle D) → List String
  list_symbols [] = []
  list_symbols (row ∷ rows) =
      let rest = list_symbols rows in if known row.symbol rest then rest else row.symbol ∷ rest

  -- WHERE symbol = %s AND ts >= %s AND ts <= %s
  abbrev pub in_range : String → ℕ → ℕ → Candle D → Bool
  in_range symbol start end row = str_eq row.symbol symbol && leb start row.ts && leb row.ts end

  -- … ORDER BY ts
  unfoldable pub fetch_backtest_candles : List (Candle D) → String → ℕ → ℕ → List (Candle D)
  fetch_backtest_candles table symbol start end =
      order_by_ts (filterb (in_range symbol start end) table)

  -- The rows before LIMIT. The query by hours is TimescaleDB's `time_bucket`, a parameter.
  abbrev pub rows_of :
      Interval
      → (List (Candle D) → String → ℕ → ℕ → List (Candle D))
      → List (Candle D)
      → String
      → ℕ
      → ℕ
      → List (Candle D)
  rows_of one_minute by_hours table symbol start end =
      order_by_ts (filterb (in_range symbol start end) table)
  rows_of one_hour by_hours table symbol start end = by_hours table symbol start end

  -- `rows[:limit], len(rows) > limit`, of a query with LIMIT limit + 1
  unfoldable pub list_candles :
      (List (Candle D) → String → ℕ → ℕ → List (Candle D))
      → List (Candle D)
      → String
      → ℕ
      → ℕ
      → ℕ
      → Interval
      → List (Candle D) × Bool
  list_candles by_hours table symbol start end limit interval =
      let rows = take (suc limit) (rows_of interval by_hours table symbol start end) in
      (take limit rows, ltb limit (length rows))

  -- SELECT count(*)
  unfoldable pub count_candles : List (Candle D) → String → ℕ → ℕ → ℕ
  count_candles table symbol start end = length (filterb (in_range symbol start end) table)
