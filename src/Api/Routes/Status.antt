-- ===== src/Api/Routes/Status.antt =====
-- The statuses of the candles handler.
use crypto_market_data_pipel.Prelude.{ℕ, ◌≡◌, ◌≤◌, true, List, String, length, arith}
use crypto_market_data_pipel.Common.Candle.{Candle}
use crypto_market_data_pipel.Api.Queries.{one_minute, list_candles}
use crypto_market_data_pipel.Api.Queries.Symbols.{has_symbol, known-list_symbols}
use crypto_market_data_pipel.Api.Routes.{
  CandlesResponse, reply, delta, expected_for_range, get_candles,
}

module _ {D : Type 0} where
  -- The answer for a range of a symbol that the table knows.
  abbrev pub found :
      (List (Candle D) → String → ℕ → ℕ → List (Candle D))
      → List (Candle D)
      → String
      → ℕ
      → ℕ
      → ℕ
      → CandlesResponse D
  found by_hours table symbol start end limit =
      let (page, truncated) = list_candles by_hours table symbol start end limit one_minute in
      record {
        symbol = symbol;
        candles = page;
        coverage = record {
          start = start;
          end = end;
          expected = expected_for_range start end (delta one_minute);
          returned = length page;
          truncated = truncated;
        };
      }

  pub get_candles-found :
      (by_hours : List (Candle D) → String → ℕ → ℕ → List (Candle D)) (table : List (Candle D))
      (symbol : String) (start end limit : ℕ)
      → start ≤ end
      → has_symbol symbol table ≡ true
      → get_candles by_hours table symbol start end limit one_minute
        ≡ reply (found by_hours table symbol start end limit)
  unfolding get_candles
  get_candles-found by_hours table symbol start end limit l h =
      let knows = known-list_symbols symbol table in ground arith
