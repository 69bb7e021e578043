-- ===== src/Dashboard/Calls/Served.antt =====
-- The calls of the dashboard reach the handlers of the API.
use crypto_market_data_pipel.Prelude.{ℕ, ◌≡◌, ap, Bool, List, String}
use crypto_market_data_pipel.Common.Errors.{ok}
use crypto_market_data_pipel.Common.Candle.{Candle}
use crypto_market_data_pipel.Common.Json.{bool, num, text}
use crypto_market_data_pipel.Common.Time.{Stamp}
use crypto_market_data_pipel.Backtest.Numbers.{Numbers}
use crypto_market_data_pipel.Api.Queries.{Interval, one_minute, one_hour}
use crypto_market_data_pipel.Api.Requests.{BacktestRequest}
use crypto_market_data_pipel.Api.Backtests.{backtest_endpoint}
use crypto_market_data_pipel.Api.Wire.{Readers, read_request, backtest_route, validated}
use crypto_market_data_pipel.Dashboard.Calls.{Writers, backtest_body}

-- What the libraries document: pydantic reads back a value of a type and the text of one.
pub record ReadsBack (n : Numbers) (readers : Readers n) (writers : Writers n) : Type 0 where
  pub as_text-text : (s : String) → readers.as_text (text s) ≡ ok s
  pub as_datetime-isoformat : (t : Stamp) → readers.as_datetime (text (writers.isoformat t)) ≡ ok t
  pub as_int-num : (k : ℕ) → readers.as_int (num k) ≡ ok k
  pub as_int-str_int : (k : ℕ) → readers.as_int (text (writers.str_int k)) ≡ ok k
  pub as_bool-bool : (b : Bool) → readers.as_bool (bool b) ≡ ok b
  pub as_decimal-str : (d : n.D) → readers.as_decimal (text (writers.str d)) ≡ ok d

-- The name of an interval.
abbrev pub name_of : Interval → String
name_of one_minute = "1m"
name_of one_hour = "1h"

module _ (n : Numbers) (readers : Readers n) (writers : Writers n)
    (back : ReadsBack n readers writers) where
  read_request-backtest_body :
      (r : BacktestRequest n) → read_request n readers (backtest_body n writers r) ≡ ok r
  unfolding read_request
  read_request-backtest_body r = rw (
    back.as_text-text r.symbol,
    back.as_datetime-isoformat r.start,
    back.as_datetime-isoformat r.end,
    back.as_decimal-str r.initial_capital,
    back.as_int-num r.fast_window,
    back.as_int-num r.slow_window,
    back.as_decimal-str r.fee_rate,
    back.as_decimal-str r.slippage,
    back.as_bool-bool r.allow_gaps,
    back.as_bool-bool r.include_equity_curve,
  )

  -- The body of `post_backtest` is read back. With pydantic reading back what is written, the route for
  -- a backtest answers the body that the dashboard builds from the fields of a request as the handler
  -- answers the request.
  pub backtest_route-backtest_body :
      (table : List (Candle n.D)) (in_time : Bool) (r : BacktestRequest n)
      → backtest_route n readers table in_time (backtest_body n writers r)
        ≡ backtest_endpoint n table in_time r
  unfolding backtest_route
  backtest_route-backtest_body table in_time r =
      ap (λ request. validated n readers request (backtest_endpoint n table in_time))
        (read_request-backtest_body r)
