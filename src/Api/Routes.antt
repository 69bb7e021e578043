-- ===== src/Api/Routes.antt =====
-- src/crypto_pipeline/api/routes.py: the handlers that serve candles and their coverage. Moments come
-- in UTC, and FastAPI has checked the symbol and the limit.
pub mod Coverage
pub mod Status
use crypto_market_data_pipel.Prelude.{
  ℕ, ◌+◌, ◌-◌, ◌*◌, ◌/◌, Bool, true, false, not, ◌&&◌, List, [], ◌∷◌, ltb, String, length,
  if◌then◌else◌,
}
use crypto_market_data_pipel.Common.Candle.{Candle, minute}
use crypto_market_data_pipel.Api.Queries.{
  Interval, one_minute, one_hour, known, list_symbols, list_candles, count_candles,
}

pub record CoverageOut : Type 0 where
  pub start : ℕ
  pub end : ℕ
  pub expected : ℕ
  pub returned : ℕ
  pub truncated : Bool

-- A response, or an HTTPException with its status.
pub data Reply (A : Type 0) : Type 0 where
  reply : A → Reply A
  http_exception : ℕ → Reply A

abbrev pub delta : Interval → ℕ
delta one_minute = minute
delta one_hour = 60 * minute

-- `int((end - start + interval) / interval)`, for a start that is not after the end.
unfoldable pub expected_for_range : ℕ → ℕ → ℕ → ℕ
expected_for_range start end interval = (end - start + interval) / interval

pub record CandlesResponse (D : Type 0) : Type 0 where
  pub symbol : String
  pub candles : List (Candle D)
  pub coverage : CoverageOut

module _ {D : Type 0} where
  abbrev pub is_empty : List (Candle D) → Bool
  is_empty [] = true
  is_empty (c ∷ cs) = false

  unfoldable pub get_candles :
      (List (Candle D) → String → ℕ → ℕ → List (Candle D))
      → List (Candle D)
      → String
      → ℕ
      → ℕ
      → ℕ
      → Interval
      → Reply (CandlesResponse D)
  unfolding expected_for_range
  get_candles by_hours table symbol start end limit interval =
      let (candles, truncated) = list_candles by_hours table symbol start end limit interval in
      if ltb end start
      then http_exception 422
      else if is_empty candles && not (known symbol (list_symbols table))
      then http_exception 404
      else reply (record {
        symbol = symbol;
        candles = candles;
        coverage = record {
          start = start;
          end = end;
          expected = expected_for_range start end (delta interval);
          returned = length candles;
          truncated = truncated;
        };
      })

  unfoldable pub get_coverage : List (Candle D) → String → ℕ → ℕ → Reply CoverageOut
  unfolding expected_for_range
  get_coverage table symbol start end =
      if ltb end start
      then http_exception 422
      else reply (record {
        start = start;
        end = end;
        expected = expected_for_range start end (delta one_minute);
        returned = count_candles table symbol start end;
        truncated = false;
      })
