-- ===== src/Backtest/Runner.antt =====
-- src/crypto_pipeline/backtest/runner.py, with `sma` of indicators.py: a backtest from its candles to
-- its metrics.
pub mod Trades
pub mod Cut
pub mod Causal
use crypto_market_data_pipel.Prelude.{
  ℕ, ◌/◌, Bool, Option, none, some, List, [], ◌∷◌, ◌==◌, map, length, if◌then◌else◌,
}
use crypto_market_data_pipel.Common.Errors.{Result, ok, err, ◌>>=◌, value_error}
use crypto_market_data_pipel.Common.Candle.{Candle}
use crypto_market_data_pipel.Backtest.Numbers.{Numbers}
use crypto_market_data_pipel.Backtest.Frame.{FrameInfo, PreparedData, Row, prepare_candles}
use crypto_market_data_pipel.Backtest.Simulation.{SimulationResult, TradeRecord, Costs, simulate}
use crypto_market_data_pipel.Backtest.Signals.{Series, sma_crossover}
use crypto_market_data_pipel.Backtest.Metrics.{
  total_return, max_drawdown, sharpe, win_rate, buy_and_hold,
}

-- 365 days, in microseconds.
abbrev pub year : ℕ
year = 31_536_000_000_000

module _ (n : Numbers) where
  pub record BacktestMetrics : Type 0 where
    pub initial_capital : n.D
    pub final_equity : n.D
    pub total_return : n.F
    pub max_drawdown : Option n.F
    pub sharpe : Option n.F
    pub win_rate : Option n.F
    pub trade_count : ℕ
    pub fees_paid : n.D
    pub buy_and_hold_final_equity : n.D
    pub buy_and_hold_total_return : n.F
    pub frame_info : FrameInfo

  pub record BacktestResult : Type 0 where
    pub metrics : BacktestMetrics
    pub simulation : SimulationResult n

  -- The arguments of `run_backtest` but for the candles and the windows.
  pub record Settings : Type 0 where
    pub interval : ℕ
    pub initial_capital : n.D
    pub costs : Costs n
    pub allow_gaps : Bool

  abbrev pub with_index : List (Row n) → List (Option n.F) → Series n
  with_index [] xs = []
  with_index (row ∷ rows) [] = (row.index, none) ∷ with_index rows []
  with_index (row ∷ rows) (x ∷ xs) = (row.index, x) ∷ with_index rows xs

  -- `sma(close, window)`
  abbrev pub sma : List (Row n) → ℕ → Result (Series n)
  sma df window =
      if window == 0
      then err value_error
      else ok (with_index df (n.rolling_mean window (map (λ row. row.close) df)))

  -- The initial capital and the pnl of the trade, which `buy_and_hold` has set.
  abbrev pub final_equity : n.D → Option n.D → n.D
  final_equity initial_capital none = initial_capital
  final_equity initial_capital (some pnl) = n.add initial_capital pnl

  -- The two averages of the closing prices, and the position that their crossover asks for.
  unfoldable pub position_series : List (Row n) → ℕ → ℕ → Result (List (ℕ × ℕ))
  position_series df fast_window slow_window = do
    fast ← sma df fast_window
    slow ← sma df slow_window
    sma_crossover n fast slow

  abbrev pub result_with :
      Settings → PreparedData n → SimulationResult n → TradeRecord n → BacktestResult
  result_with set prepared result bh_trade =
      let bh_final_equity = final_equity set.initial_capital bh_trade.pnl in
      let equity = map (λ point. point.1) result.equity_curve in
      let capital = n.float set.initial_capital in
      record {
        metrics = record {
          initial_capital = set.initial_capital;
          final_equity = result.final_cash;
          total_return = total_return n capital (n.float result.final_cash);
          max_drawdown = max_drawdown n equity;
          sharpe = sharpe n equity (year / prepared.info.interval);
          win_rate = win_rate n result.trades;
          trade_count = length result.trades;
          fees_paid = result.total_fees;
          buy_and_hold_final_equity = bh_final_equity;
          buy_and_hold_total_return = total_return n capital (n.float bh_final_equity);
          frame_info = prepared.info;
        };
        simulation = result;
      }

  unfoldable pub run_backtest : List (Candle n.D) → Settings → ℕ → ℕ → Result BacktestResult
  run_backtest candles set fast_window slow_window = do
    prepared ← prepare_candles n candles set.interval set.allow_gaps
    position ← position_series prepared.df fast_window slow_window
    result ← simulate n position prepared set.initial_capital set.costs
    bh_trade ← buy_and_hold n prepared set.initial_capital set.costs
    ok (result_with set prepared result bh_trade)

  abbrev pub metrics_of : Result BacktestResult → Result BacktestMetrics
  metrics_of (ok result) = ok result.metrics
  metrics_of (err e) = err e

  unfoldable pub run_backtest_metrics :
      List (Candle n.D) → Settings → ℕ → ℕ → Result BacktestMetrics
  run_backtest_metrics candles set fast_window slow_window =
      metrics_of (run_backtest candles set fast_window slow_window)
