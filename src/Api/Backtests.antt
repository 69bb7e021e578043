-- ===== src/Api/Backtests.antt =====
-- src/crypto_pipeline/api/routes.py: the handler that runs a backtest, behind the checks of its request.
pub mod Responses
use crypto_market_data_pipel.Prelude.{
  ℕ, Bool, true, false, not, Option, none, some, List, [], ◌∷◌, String, if◌then◌else◌,
}
use crypto_market_data_pipel.Common.Errors.{
  Error, Result, ok, err, ◌>>=◌, value_error, gap_error, database_error,
}
use crypto_market_data_pipel.Common.Candle.{Candle, minute}
use crypto_market_data_pipel.Common.Time.{to_utc}
use crypto_market_data_pipel.Backtest.Numbers.{Numbers}
use crypto_market_data_pipel.Backtest.Simulation.{TradeRecord, Costs}
use crypto_market_data_pipel.Backtest.Runner.{
  BacktestMetrics, BacktestResult, Settings, run_backtest,
}
use crypto_market_data_pipel.Api.Queries.{known, list_symbols, fetch_backtest_candles}
use crypto_market_data_pipel.Api.Routes.{Reply, reply, http_exception}
use crypto_market_data_pipel.Api.Requests.{BacktestRequest, validate}
use crypto_market_data_pipel.Api.App.{respond}

module _ (n : Numbers) where
  -- `MetricsOut`: the metrics with the windows; `max_drawdown` may not be null there.
  pub record MetricsOut : Type 0 where
    pub metrics : BacktestMetrics n
    pub max_drawdown : n.F
    pub fast_window : ℕ
    pub slow_window : ℕ

  pub record BacktestResponse : Type 0 where
    pub metrics : MetricsOut
    pub trades : List (TradeRecord n)
    pub equity_curve : Option (List (ℕ × n.F))

  abbrev pub settings_of : BacktestRequest n → Settings n
  settings_of request = record {
    interval = minute;
    initial_capital = request.initial_capital;
    costs = record { fee_rate = request.fee_rate; slippage = request.slippage };
    allow_gaps = request.allow_gaps;
  }

  -- `MetricsOut.model_validate`, which raises where `max_drawdown` is null.
  abbrev pub metrics_out : BacktestRequest n → BacktestMetrics n → Option n.F → Result MetricsOut
  metrics_out request m none = err value_error
  metrics_out request m (some drawdown) = ok (record {
    metrics = m;
    max_drawdown = drawdown;
    fast_window = request.fast_window;
    slow_window = request.slow_window;
  })

  abbrev pub respond_with : BacktestRequest n → BacktestResult n → Result (Reply BacktestResponse)
  respond_with request result = do
    metrics ← metrics_out request result.metrics result.metrics.max_drawdown
    ok (
        reply (record {
          metrics = metrics;
          trades = result.simulation.trades;
          equity_curve =
              if request.include_equity_curve then some result.simulation.equity_curve else none;
        }))

  -- `except GapError`; other exceptions go up.
  abbrev pub on_result :
      BacktestRequest n → Result (BacktestResult n) → Result (Reply BacktestResponse)
  on_result request (ok result) = respond_with request result
  on_result request (err (gap_error count)) = ok (http_exception 422)
  on_result request (err e) = err e

  abbrev pub on_candles :
      List (Candle n.D)
      → Bool
      → BacktestRequest n
      → List (Candle n.D)
      → Result (Reply BacktestResponse)
  on_candles table in_time request [] =
      if known request.symbol (list_symbols table)
      then ok (http_exception 422)
      else ok (http_exception 404)
  on_candles table in_time request (c ∷ cs) =
      let result =
        run_backtest n (c ∷ cs) (settings_of request) request.fast_window request.slow_window in
      if in_time then on_result request result else ok (http_exception 503)

  -- `in_time`: whether the semaphore and the run came before the time-out.
  unfoldable pub post_backtest :
      List (Candle n.D) → Bool → BacktestRequest n → Result (Reply BacktestResponse)
  post_backtest table in_time request =
      on_candles table in_time request
        (fetch_backtest_candles table request.symbol (to_utc request.start) (to_utc request.end))

  -- A request that is not valid is answered by FastAPI with 422, unless its check raises otherwise.
  abbrev pub when_valid :
      Result (Unit {0}) → Result (Reply BacktestResponse) → Result (Reply BacktestResponse)
  when_valid (ok v) handled = handled
  when_valid (err value_error) handled = ok (http_exception 422)
  when_valid (err e) handled = err e

  -- POST /backtest
  unfoldable pub backtest_endpoint :
      List (Candle n.D) → Bool → BacktestRequest n → Reply BacktestResponse
  backtest_endpoint table in_time request =
      respond (when_valid (validate n request) (post_backtest table in_time request))
