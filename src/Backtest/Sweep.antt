-- ===== src/Backtest/Sweep.antt =====
-- src/crypto_pipeline/backtest/sweep.py: the choice of windows on the first part of the candles, and
-- its test on the rest.
pub mod Choice
pub mod Causal
use crypto_market_data_pipel.Prelude.{
  ℕ, zero, suc, Bool, true, false, not, ◌&&◌, ◌||◌, Option, none, some, List, [], ◌∷◌, ltb, leb,
  length, take, drop, filterb, if◌then◌else◌,
}
use crypto_market_data_pipel.Common.Errors.{Result, ok, err, ◌>>=◌, value_error}
use crypto_market_data_pipel.Common.Candle.{Candle}
use crypto_market_data_pipel.Backtest.Numbers.{Numbers}
use crypto_market_data_pipel.Backtest.Runner.{BacktestMetrics, Settings, run_backtest_metrics}

abbrev pub min_trades_for_eligibility : ℕ
min_trades_for_eligibility = 5

-- `DEFAULT_GRID`
abbrev pub default_grid : List (ℕ × ℕ)
default_grid =
    (60, 480)
    ∷ (60, 1440)
    ∷ (240, 1440)
    ∷ (240, 2880)
    ∷ (500, 2000)
    ∷ (500, 7200)
    ∷ (1440, 7200)
    ∷ (1440, 20160)
    ∷ []

module _ (n : Numbers) where
  -- The windows, fast and slow, with the metrics that they gave.
  pub record Entry : Type 0 where
    pub fast_window : ℕ
    pub slow_window : ℕ
    pub metrics : BacktestMetrics n

  pub record SweepResult : Type 0 where
    pub fast_window : ℕ
    pub slow_window : ℕ
    pub in_sample : BacktestMetrics n
    pub out_of_sample : BacktestMetrics n
    pub ranked_in_sample : List Entry

  abbrev pub split_chronological : List (Candle n.D) → n.F → List (Candle n.D) × List (Candle n.D)
  split_chronological candles ratio =
      let split_index = n.scale ratio (length candles) in
      (take split_index candles, drop split_index candles)

  -- `fast >= slow or slow > len(is_candles)`
  abbrev pub is_skipped : List (Candle n.D) → ℕ → ℕ → Bool
  is_skipped candles fast slow = leb slow fast || ltb (length candles) slow

  -- `for fast, slow in grid`; an exception of a run leaves the loop.
  unfoldable pub rank : List (Candle n.D) → Settings n → List (ℕ × ℕ) → Result (List Entry)
  rank candles set [] = ok []
  rank candles set ((fast, slow) ∷ grid) =
      if is_skipped candles fast slow then rank candles set grid else (do
        metrics ← run_backtest_metrics n candles set fast slow
        rest ← rank candles set grid
        ok (record { fast_window = fast; slow_window = slow; metrics = metrics } ∷ rest))

  abbrev pub has_sharpe : Option n.F → Bool
  has_sharpe none = false
  has_sharpe (some x) = true

  abbrev pub is_eligible : Entry → Bool
  is_eligible r =
      has_sharpe r.metrics.sharpe && leb min_trades_for_eligibility r.metrics.trade_count

  -- `(sharpe is not None, sharpe or 0.0)`, compared as tuples are.
  abbrev pub below : Option n.F → Option n.F → Bool
  below none none = false
  below none (some y) = true
  below (some x) none = false
  below (some x) (some y) = n.ltb_f x y

  -- `sort(…, reverse=True)`, which keeps the order of equals.
  abbrev pub insert_ranked : Entry → List Entry → List Entry
  insert_ranked r [] = r ∷ []
  insert_ranked r (s ∷ rest) =
      let later = insert_ranked r rest in
      if below r.metrics.sharpe s.metrics.sharpe then s ∷ later else r ∷ s ∷ rest

  abbrev pub sort_ranked : List Entry → List Entry
  sort_ranked [] = []
  sort_ranked (r ∷ rest) = insert_ranked r (sort_ranked rest)

  -- `max(eligible, key=…)` keeps the first of equals.
  abbrev pub best_of : Entry → List Entry → Entry
  best_of best [] = best
  best_of best (r ∷ rest) =
      best_of (if below best.metrics.sharpe r.metrics.sharpe then r else best) rest

  abbrev pub choose : List Entry → List Entry → Result (Entry × List Entry)
  choose ranked [] = err value_error
  choose ranked (r ∷ rest) = ok (best_of r rest, sort_ranked ranked)

  -- The run of the best windows on the rest of the candles.
  abbrev pub tested : List (Candle n.D) → Settings n → Entry × List Entry → Result SweepResult
  tested oos_candles set (best, sorted) = do
    oos ← run_backtest_metrics n oos_candles set best.fast_window best.slow_window
    ok (record {
      fast_window = best.fast_window;
      slow_window = best.slow_window;
      in_sample = best.metrics;
      out_of_sample = oos;
      ranked_in_sample = sorted;
    })

  unfoldable pub run_sweep :
      List (Candle n.D) → Settings n → List (ℕ × ℕ) → n.F → Result SweepResult
  run_sweep candles set grid ratio =
      let (is_candles, oos_candles) = split_chronological candles ratio in
      (do
        ranked ← rank is_candles set grid
        chosen ← choose ranked (filterb is_eligible ranked)
        tested oos_candles set chosen)
