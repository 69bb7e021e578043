-- ===== src/Examples/Backtest.antt =====
-- Instances for src/crypto_pipeline/backtest, with whole numbers for decimals and floats.
use crypto_market_data_pipel.Prelude.{
  ℕ, zero, suc, ◌+◌, ◌-◌, ◌*◌, ◌/◌, ◌%◌, ◌==◌, ◌≡◌, refl, false, Option, none, some, List, [], ◌∷◌,
  ltb, arith, take, if◌then◌else◌, length,
}
use crypto_market_data_pipel.Common.Errors.{invalid_operation, err, ok}
use crypto_market_data_pipel.Common.Candle.{Candle, minute}
use crypto_market_data_pipel.Backtest.Numbers.{Numbers}
use crypto_market_data_pipel.Backtest.Frame.{PreparedData, frame_of, prepare_candles}
use crypto_market_data_pipel.Backtest.Frame.Grid.{
  IsGrid, prepare_candles-IsGrid, prepare_candles_accepts,
}
use crypto_market_data_pipel.Backtest.Simulation.{Costs, simulate, follow}
use crypto_market_data_pipel.Backtest.Signals.{sma_crossover}
use crypto_market_data_pipel.Backtest.Runner.{
  Settings, position_series, run_backtest, run_backtest_metrics,
}
use crypto_market_data_pipel.Backtest.Sweep.{SweepResult, rank, run_sweep}
use crypto_market_data_pipel.Backtest.Sweep.Choice.{IsOrder, IsChosen, run_sweep-IsChosen}

abbrev pub sum : List ℕ → ℕ
sum [] = 0
sum (x ∷ xs) = x + sum xs

-- The mean of the last values, for those that have enough before them.
abbrev pub rolling : ℕ → List ℕ → List ℕ → List (Option ℕ)
rolling window before [] = []
rolling window before (x ∷ xs) =
    let seen = x ∷ before in
    let rest = rolling window seen xs in
    (if ltb (length seen) window then none else some (sum (take window seen) / window)) ∷ rest

abbrev pub numbers : Numbers
numbers = record {
  D = ℕ;
  zero_d = 0;
  one = 1;
  add = λ a b. a + b;
  sub = λ a b. a - b;
  mul = λ a b. a * b;
  div = λ a b. if b == 0 then err invalid_operation else ok (a / b);
  quantize = λ a. ok a;
  ltb_d = ltb;
  isna = λ a. false;
  F = ℕ;
  float = λ a. a;
  zero_f = 0;
  one_f = 1;
  add_f = λ a b. a + b;
  sub_f = λ a b. a - b;
  mul_f = λ a b. a * b;
  div_f = λ a b. a / b;
  ltb_f = ltb;
  ratio = λ a b. a / b;
  sqrt = λ a. a;
  scale = λ ratio a. a * ratio / 10;
  rolling_mean = λ window xs. rolling window [] xs;
  pct_change = λ xs. xs;
  mean = λ xs. 1;
  std = λ xs. some 1;
}

pub numbers-IsOrder : IsOrder numbers
numbers-IsOrder = record { irreflexive = λ x. ground arith; transitive = λ x y z h k. ground arith }

-- A minute in which the price is 10 or 20, by turns.
abbrev pub tick : ℕ → Candle ℕ
tick i =
    let price = 10 + i % 2 * 10 in
    record {
      symbol = "BTCUSDT";
      ts = i * minute;
      open_price = price;
      high = price;
      low = price;
      close = price;
      volume = 1;
    }

abbrev pub ticks_from : ℕ → ℕ → List (Candle ℕ)
ticks_from zero i = []
ticks_from (suc n) i = tick i ∷ ticks_from n (i + 1)

abbrev pub costs : Costs numbers
costs = record { fee_rate = 0; slippage = 0 }

abbrev pub settings : Settings numbers
settings = record { interval = minute; initial_capital = 1000; costs = costs; allow_gaps = false }

abbrev frame : PreparedData numbers
frame = frame_of numbers minute (tick 0) (tick 1 ∷ tick 2 ∷ []) 0

prepare_candles_accepts_example :
    prepare_candles numbers (tick 0 ∷ tick 1 ∷ tick 2 ∷ []) minute false ≡ ok frame
prepare_candles_accepts_example =
    prepare_candles_accepts numbers (tick 0) (tick 1 ∷ tick 2 ∷ []) minute false (omega arith)
      (refl, (refl, (refl, tt))) refl refl

prepare_candles-IsGrid_example :
    IsGrid minute 0 (0 ∷ minute ∷ 2 * minute ∷ [])
    × (frame.info.start_ts ≡ 0)
    × (frame.info.end_ts ≡ 0 + minute * 2)
    × (frame.info.gap_count ≡ 0)
prepare_candles-IsGrid_example =
    prepare_candles-IsGrid numbers (tick 0) (tick 1 ∷ tick 2 ∷ []) minute frame
      prepare_candles_accepts_example

-- Of 24 minutes, the first 12 choose the windows 1 and 2, which make five trades there.
run_sweep-IsChosen_example :
    (r : SweepResult numbers) × IsChosen numbers numbers-IsOrder
      (ticks_from 24 0)
      settings
      ((2, 1) ∷ (1, 2) ∷ [])
      5
      r
unfolding run_sweep rank run_backtest_metrics run_backtest position_series prepare_candles simulate
    follow sma_crossover
run_sweep-IsChosen_example = (
  _,
  run_sweep-IsChosen numbers numbers-IsOrder (ticks_from 24 0) settings ((2, 1) ∷ (1, 2) ∷ []) 5 _
      refl,
)
