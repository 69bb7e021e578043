-- ===== src/Examples/Handlers.antt =====
-- Instances for the handlers of src/crypto_pipeline/api and for the migrations.
use crypto_market_data_pipel.Prelude.{
  ℕ, suc, ◌*◌, ◌≡◌, ◌≤◌, ◌<◌, ◌↔◌, refl, true, false, none, some, List, ◌∷◌, String, length,
}
use crypto_market_data_pipel.Common.Errors.{ok}
use crypto_market_data_pipel.Common.Candle.{Candle, minute}
use crypto_market_data_pipel.Backtest.Frame.{prepare_candles}
use crypto_market_data_pipel.Backtest.Simulation.{simulate, follow}
use crypto_market_data_pipel.Backtest.Signals.{sma_crossover}
use crypto_market_data_pipel.Backtest.Runner.{BacktestResult, position_series, run_backtest}
use crypto_market_data_pipel.Api.Queries.{fetch_backtest_candles}
use crypto_market_data_pipel.Api.Queries.Symbols.{has_symbol}
use crypto_market_data_pipel.Api.Routes.{reply, http_exception}
use crypto_market_data_pipel.Api.Requests.{
  BacktestRequest, max_backtest_candles, check_consistency, validate,
}
use crypto_market_data_pipel.Api.Backtests.{
  BacktestResponse, settings_of, post_backtest, backtest_endpoint,
}
use crypto_market_data_pipel.Api.Backtests.Responses.{
  backtest_endpoint-reply, backtest_endpoint_not_found,
}
use crypto_market_data_pipel.Migrations.{
  Server, IsDocumented, Database, with_table, upgrade_50cb58adb492, downgrade_50cb58adb492,
  downgrade_50cb58adb492-upgrade,
}
use crypto_market_data_pipel.Writer.Table.Keys.{IsKeyed}
use mathlib.Core.List.{Permᴰ, reverse}
use mathlib.Core.List.Permᴰ
use crypto_market_data_pipel.Examples.Backtest.{numbers, ticks_from}
use crypto_market_data_pipel.Examples.Api.{stored}

-- The first five minutes, with the windows 1 and 2.
abbrev pub request : BacktestRequest numbers
request = record {
  symbol = "BTCUSDT";
  start = record { aware = true; micros = 0 };
  end = record { aware = true; micros = 4 * minute };
  initial_capital = 1000;
  fast_window = 1;
  slow_window = 2;
  fee_rate = 0;
  slippage = 0;
  allow_gaps = false;
  include_equity_curve = true;
}

abbrev Answers : BacktestResponse numbers → Type 0
Answers r = backtest_endpoint numbers (ticks_from 8 0) true request ≡ reply r

answered : (r : BacktestResponse numbers) × Answers r
unfolding backtest_endpoint post_backtest fetch_backtest_candles validate check_consistency
    run_backtest position_series prepare_candles simulate follow sma_crossover
answered = (_, refl)

backtest_endpoint-reply_example :
    (first : Candle ℕ) × (rest : List (Candle ℕ)) × (b : BacktestResult numbers)
    × (fetch_backtest_candles (ticks_from 8 0) "BTCUSDT" 0 (4 * minute) ≡ first ∷ rest)
    × (run_backtest numbers (first ∷ rest) (settings_of numbers request) 1 2 ≡ ok b)
    × (answered.0.trades ≡ b.simulation.trades)
    × (answered.0.metrics.metrics ≡ b.metrics)
    × (length (first ∷ rest) ≤ suc max_backtest_candles)
    × (0 < 4 * minute)
    × (1 < 2)
backtest_endpoint-reply_example =
    backtest_endpoint-reply numbers (ticks_from 8 0) true request answered.0
      (refl, (refl, (refl, (refl, (refl, (refl, (refl, (refl, tt))))))))
      (refl, (refl, (refl, (refl, (refl, (refl, (refl, (refl, tt)))))))) answered.1

backtest_endpoint_not_found_example :
    (backtest_endpoint numbers (ticks_from 8 0) true (record request { symbol = "ETHUSDT" })
      ≡ http_exception 404)
    ↔ (has_symbol "ETHUSDT" (ticks_from 8 0) ≡ false)
unfolding validate check_consistency
backtest_endpoint_not_found_example =
    backtest_endpoint_not_found numbers (ticks_from 8 0) true
      (record request { symbol = "ETHUSDT" }) refl

-- A server that turns the rows around where it makes a hypertable.
abbrev server : Server String
server = record {
  create_extension = λ there. ok true;
  create_hypertable = λ there t. ok (record { rows = reverse t.rows; hyper = true });
  select = λ rows. rows;
}

server-IsDocumented : IsDocumented server
server-IsDocumented = record {
  installs = λ there. refl;
  migrates = λ rows. (reverse rows, refl, Permᴰ.symm (Permᴰ.reverse rows));
  selects = λ rows. Permᴰ.refl rows;
}

downgrade_50cb58adb492-upgrade_example :
    (up : Database String) × (rows : List (Candle String)) × (backup : List (Candle String))
    × (upgrade_50cb58adb492 server (with_table false false stored none) ≡ ok up)
    × (downgrade_50cb58adb492 server up ≡ ok (with_table true false rows (some backup)))
    × Permᴰ stored rows
    × Permᴰ stored backup
    × IsKeyed rows
downgrade_50cb58adb492-upgrade_example =
    downgrade_50cb58adb492-upgrade server server-IsDocumented false stored
      (refl, (refl, (refl, tt)))
