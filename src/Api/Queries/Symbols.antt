-- ===== src/Api/Queries/Symbols.antt =====
-- The symbols that the table knows.
use crypto_market_data_pipel.Prelude.{
  ℕ, ◌≡◌, refl, ap, Bool, true, false, ◌||◌, List, [], ◌∷◌, String, str_eq, eq_iff, filterb, arith,
}
use crypto_market_data_pipel.Common.Candle.{Candle}
use crypto_market_data_pipel.Writer.Table.{order_by_ts}
use crypto_market_data_pipel.Api.Queries.{known, list_symbols, in_range, fetch_backtest_candles}

known-same :
    (s t : String) (xs : List String) → str_eq s t ≡ true → known s xs ≡ true → known t xs ≡ true
known-same s t [] e h = cc
known-same s t (x ∷ xs) e h = ground (arith, known-same s t xs, eq_iff s t, eq_iff x s, eq_iff x t)

module _ {D : Type 0} where
  -- Whether the table has a row of a symbol.
  abbrev pub has_symbol : String → List (Candle D) → Bool
  has_symbol s [] = false
  has_symbol s (row ∷ rows) = str_eq row.symbol s || has_symbol s rows

  pub known-list_symbols :
      (s : String) (table : List (Candle D)) → known s (list_symbols table) ≡ has_symbol s table
  unfolding list_symbols
  known-list_symbols s [] = refl
  known-list_symbols s (row ∷ rows) =
      ground (arith, known-list_symbols s rows, known-same row.symbol s (list_symbols rows))

  no_rows :
      (s : String) (start end : ℕ) (table : List (Candle D))
      → has_symbol s table ≡ false
      → filterb (in_range s start end) table ≡ []
  no_rows s start end [] h = refl
  no_rows s start end (row ∷ rows) h = ground (arith, no_rows s start end rows)

  pub fetch_backtest_candles_unknown :
      (s : String) (start end : ℕ) (table : List (Candle D))
      → has_symbol s table ≡ false
      → fetch_backtest_candles table s start end ≡ []
  unfolding fetch_backtest_candles
  fetch_backtest_candles_unknown s start end table h = ap order_by_ts (no_rows s start end table h)
