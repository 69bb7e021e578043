-- ===== src/Api/Wire.antt =====
-- What src/crypto_pipeline/api/routes.py and models.py declare of the requests: the parameters of a
-- path and of a query, and the body of a backtest's request, with their types, constraints and
-- defaults. How pydantic reads a value of a type is an interface.
use crypto_market_data_pipel.Prelude.{
  ℕ, ◌&&◌, Bool, false, Option, none, some, List, leb, String, str_eq, if◌then◌else◌,
}
use crypto_market_data_pipel.Common.Errors.{Result, ok, err, ◌>>=◌, value_error}
use crypto_market_data_pipel.Common.Candle.{Candle}
use crypto_market_data_pipel.Common.Dict.{Dict, get}
use crypto_market_data_pipel.Common.Json.{Json, text, item}
use crypto_market_data_pipel.Common.Time.{Stamp, to_utc}
use crypto_market_data_pipel.Backtest.Numbers.{Numbers}
use crypto_market_data_pipel.Api.Queries.{Interval, one_minute, one_hour}
use crypto_market_data_pipel.Api.Routes.{
  Reply, http_exception, CandlesResponse, CoverageOut, get_candles, get_coverage,
}
use crypto_market_data_pipel.Api.Requests.{BacktestRequest, matches_symbol}
use crypto_market_data_pipel.Api.Backtests.{BacktestResponse, backtest_endpoint}

-- pydantic's readers, and `Decimal("0.001")` for FEE_DEFAULT and SLIPPAGE_DEFAULT.
pub record Readers (n : Numbers) : Type 0 where
  pub as_text : Json → Result String
  pub as_datetime : Json → Result Stamp
  pub as_int : Json → Result ℕ
  pub as_bool : Json → Result Bool
  pub as_decimal : Json → Result n.D
  pub rate_default : n.D

module _ (n : Numbers) (readers : Readers n) where
  open readers use {as_text, as_datetime, as_int, as_bool, as_decimal, rate_default}

  -- A parameter of the query that has no default; its value is a text.
  abbrev pub query_value : {A : Type 0} → (Json → Result A) → Option String → Result A
  query_value read none = err value_error
  query_value read (some s) = read (text s)

  -- `Path(pattern=SYMBOL_PATTERN)`
  abbrev pub read_symbol : String → Result String
  read_symbol s = if matches_symbol s then ok s else err value_error

  -- `Query(ge=1, le=10_000)`, of an `int`
  abbrev pub in_limits : ℕ → Result ℕ
  in_limits limit = if leb 1 limit && leb limit 10_000 then ok limit else err value_error

  abbrev pub read_limit : Option String → Result ℕ
  read_limit none = ok 1_000
  read_limit (some s) = as_int (text s) >>= in_limits

  -- `CandleInterval`
  abbrev pub interval_of : String → Result Interval
  interval_of s =
      if str_eq s "1m"
      then ok one_minute
      else if str_eq s "1h"
      then ok one_hour
      else err value_error

  abbrev pub read_interval : Option String → Result Interval
  read_interval none = ok one_minute
  read_interval (some s) = interval_of s

  -- The status of a request that FastAPI refuses.
  abbrev pub validated : {A B : Type 0} → Result A → (A → Reply B) → Reply B
  validated (ok a) handler = handler a
  validated (err e) handler = http_exception 422

  -- GET /candles/{symbol}
  unfoldable pub candles_route :
      {D : Type 0}
      → (List (Candle D) → String → ℕ → ℕ → List (Candle D))
      → List (Candle D)
      → String
      → Dict String
      → Reply (CandlesResponse D)
  candles_route by_hours table path query = validated (read_symbol path) (λ symbol.
      validated (query_value as_datetime (get query "start")) (λ start.
        validated (query_value as_datetime (get query "end")) (λ end.
          validated (read_limit (get query "limit")) (λ limit.
            validated (read_interval (get query "interval")) (λ interval.
              get_candles by_hours table symbol (to_utc start) (to_utc end) limit interval)))))

  -- GET /coverage/{symbol}
  unfoldable pub coverage_route :
      {D : Type 0} → List (Candle D) → String → Dict String → Reply CoverageOut
  coverage_route table path query = validated (read_symbol path) (λ symbol.
      validated (query_value as_datetime (get query "start")) (λ start.
        validated (query_value as_datetime (get query "end"))
          (λ end. get_coverage table symbol (to_utc start) (to_utc end))))

  -- A field of the body, without and with a default.
  abbrev pub required : {A : Type 0} → (Json → Result A) → Json → String → Result A
  required read body key = item body key >>= read

  abbrev pub or_default : {A : Type 0} → (Json → Result A) → A → Result Json → Result A
  or_default read default (ok found) = read found
  or_default read default (err e) = ok default

  -- `Literal["1m"]`
  abbrev pub only_minutes : Json → Result Interval
  only_minutes (text s) = if str_eq s "1m" then ok one_minute else err value_error
  only_minutes _ = err value_error

  -- The fields of BacktestRequest; their constraints are checked by `validate`.
  unfoldable pub read_request : Json → Result (BacktestRequest n)
  read_request body = do
    symbol ← required as_text body "symbol"
    start ← required as_datetime body "start"
    end ← required as_datetime body "end"
    interval ← or_default only_minutes one_minute (item body "interval")
    initial_capital ← required as_decimal body "initial_capital"
    fast_window ← required as_int body "fast_window"
    slow_window ← required as_int body "slow_window"
    fee_rate ← or_default as_decimal rate_default (item body "fee_rate")
    slippage ← or_default as_decimal rate_default (item body "slippage")
    allow_gaps ← or_default as_bool false (item body "allow_gaps")
    include_equity_curve ← or_default as_bool false (item body "include_equity_curve")
    ok (record {
      symbol = symbol;
      start = start;
      end = end;
      initial_capital = initial_capital;
      fast_window = fast_window;
      slow_window = slow_window;
      fee_rate = fee_rate;
      slippage = slippage;
      allow_gaps = allow_gaps;
      include_equity_curve = include_equity_curve;
    })

  -- POST /backtest
  unfoldable pub backtest_route : List (Candle n.D) → Bool → Json → Reply (BacktestResponse n)
  unfolding read_request
  backtest_route table in_time body =
      validated (read_request body) (backtest_endpoint n table in_time)
