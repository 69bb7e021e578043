-- ===== src/Examples/Runs.antt =====
-- Instances for src/crypto_pipeline/backtest/runner.py and for the command of the backtest.
use crypto_market_data_pipel.Prelude.{
  ℕ, ◌*◌, ◌≡◌, ◌≢◌, ◌<◌, ◌↔◌, refl, Bool, true, false, none, some, List, [], ◌∷◌, ◌++◌, String, All,
  ltb, str_eq, if◌then◌else◌,
}
use crypto_market_data_pipel.Common.Errors.{Error, ok}
use crypto_market_data_pipel.Common.Candle.{Candle, minute}
use crypto_market_data_pipel.Backfill.Command
use crypto_market_data_pipel.Backfill.Command.{label, resolve_range}
use crypto_market_data_pipel.Backtest.Frame.{prepare_candles}
use crypto_market_data_pipel.Backtest.Simulation.{simulate, follow}
use crypto_market_data_pipel.Backtest.Signals.{sma_crossover}
use crypto_market_data_pipel.Backtest.Runner.{
  BacktestResult, position_series, run_backtest, run_backtest_metrics,
}
use crypto_market_data_pipel.Backtest.Runner.Trades.{IsRunOf, run_backtest-IsRunOf}
use crypto_market_data_pipel.Backtest.Report.{Formats}
use crypto_market_data_pipel.Backtest.Command.{
  Options, failed, outcome_of, errors, texts, exit_code, main, main-outcomes,
}
use crypto_market_data_pipel.Backtest.Sweep.{SweepResult, rank, run_sweep}
use crypto_market_data_pipel.Backtest.Sweep.Causal.{run_sweep_causal}
use crypto_market_data_pipel.Examples.Backtest.{numbers, settings, tick, ticks_from}
use crypto_market_data_pipel.Examples.Reference.{codec, count_marks}

abbrev Returns : List (Candle ℕ) → Type 0
Returns candles =
    (r : BacktestResult numbers) × (run_backtest numbers (tick 0 ∷ candles) settings 1 2 ≡ ok r)

turns-Returns : Returns (ticks_from 7 1)
unfolding run_backtest position_series prepare_candles simulate follow sma_crossover
turns-Returns = (_, refl)

-- Eight minutes, with the windows 1 and 2: the strategy is in after each rise.
run_backtest-IsRunOf_example :
    (held : List (ℕ × Bool)) × IsRunOf numbers
      (tick 0)
      (ticks_from 7 1)
      settings
      1
      2
      turns-Returns.0
      held
run_backtest-IsRunOf_example =
    run_backtest-IsRunOf numbers (tick 0) (ticks_from 7 1) settings 1 2 turns-Returns.0
      turns-Returns.1

-- The seventh minute opens as it did, and closes higher; then the price stays.
abbrev settled : List (Candle ℕ)
settled =
    ticks_from 5 1
    ++ (record (tick 6) { high = 20; close = 20 } ∷ record (tick 5) { ts = 7 * minute } ∷ [])

-- Texts of a length.
abbrev formats : Formats numbers
formats = record {
  money = λ a. "m";
  percent = λ a. "p";
  two_places = λ a. "r";
  commas = λ a. "c";
  digits = λ a. "d";
  minute_text = λ a. "t";
  resolution = λ a. "min";
  pad_right = λ k s. s;
  pad_left = λ k s. s;
  dashes = λ k. "-";
}

abbrev options : Options numbers formats
options = record {
  initial_capital = 1000;
  fast = 1;
  slow = 2;
  fee_rate = 0;
  slippage = 0;
  allow_gaps = false;
  sweep = false;
  sweep_ratio = 5;
}

abbrev args : Command.Args
args = record {
  symbol = "btcusdt" ∷ "ETHUSDT" ∷ "BTCUSDT" ∷ [];
  days = 1;
  start = some "11";
  end = none;
  dry_run = false;
}

abbrev upper : String → String
upper s = if str_eq s "btcusdt" then "BTCUSDT" else s

abbrev readable : ℕ → Bool
readable k = ltb k 2

abbrev symbols : List (String × Bool)
symbols = ("BTCUSDT", true) ∷ ("ETHUSDT", true) ∷ ("BTCUSDT", false) ∷ []

-- A symbol with candles, one without, and one for which the database does not answer.
main-outcomes_example :
    let out = outcome_of numbers formats (ticks_from 8 0) options 2 (8 * minute) in
    (2 < 8 * minute)
    × (main numbers formats codec upper (ticks_from 8 0) options (8 * minute) args readable
        ≡ ok (
          exit_code numbers formats (errors numbers formats out symbols),
          texts numbers formats out symbols,
        ))
    × (exit_code numbers formats (errors numbers formats out symbols) ≡ 0
        ↔ All (λ x. (e : Error) → out x ≢ failed e) symbols)
unfolding resolve_range count_marks label
main-outcomes_example =
    main-outcomes numbers formats codec upper (ticks_from 8 0) options (8 * minute) args readable
      refl

-- Two sweeps over 24 minutes, the second of which misses the thirteenth.
abbrev other_ticks : List (Candle ℕ)
other_ticks = ticks_from 12 0 ++ ticks_from 12 13

abbrev grid : List (ℕ × ℕ)
grid = (2, 1) ∷ (1, 2) ∷ []

abbrev Swept : List (Candle ℕ) → SweepResult numbers → Type 0
Swept candles r = run_sweep numbers candles settings grid 5 ≡ ok r

swept : (r : SweepResult numbers) × Swept (ticks_from 24 0) r
unfolding run_sweep rank run_backtest_metrics run_backtest position_series prepare_candles simulate
    follow sma_crossover
swept = (_, refl)

swept_other : (r : SweepResult numbers) × Swept other_ticks r
unfolding run_sweep rank run_backtest_metrics run_backtest position_series prepare_candles simulate
    follow sma_crossover
swept_other = (_, refl)

run_sweep_causal_example :
    (swept.0.fast_window ≡ swept_other.0.fast_window)
    × (swept.0.slow_window ≡ swept_other.0.slow_window)
    × (swept.0.in_sample ≡ swept_other.0.in_sample)
    × (swept.0.ranked_in_sample ≡ swept_other.0.ranked_in_sample)
run_sweep_causal_example =
    run_sweep_causal numbers (ticks_from 24 0) other_ticks settings grid 5 swept.0 swept_other.0
      refl swept.1 swept_other.1
