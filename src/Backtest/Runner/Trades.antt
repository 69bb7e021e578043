-- ===== src/Backtest/Runner/Trades.antt =====
-- `run_backtest` from the candles to the trades.
use crypto_market_data_pipel.Prelude.{
  ℕ, ◌≡◌, refl, sym, ap, ◌∙◌, Bool, Option, List, [], ◌∷◌, ◌++◌, map, length, All, arith, last_or,
}
use crypto_market_data_pipel.Common.Errors.{ok, >>=-ok}
use crypto_market_data_pipel.Common.Candle.{Candle}
use crypto_market_data_pipel.Backtest.Numbers.{Numbers}
use crypto_market_data_pipel.Backtest.Frame.{
  Row, PreparedData, row_of_candle, price_at, prepare_candles,
}
use crypto_market_data_pipel.Backtest.Frame.Grid.{
  Ascends, prepare_candles-frame_of, prepare_candles-price_at,
}
use crypto_market_data_pipel.Backtest.Simulation.{simulate}
use crypto_market_data_pipel.Backtest.Simulation.Trades.{
  Tick, position_of, flat, round_trips, pending, worth, IsPriced, simulate-round_trips,
}
use crypto_market_data_pipel.Backtest.Simulation.Order.{IsAscending, IsOrdered, simulate-IsOrdered}
use crypto_market_data_pipel.Backtest.Signals.{Series, sma_crossover, mark, sma_crossover-mark}
use crypto_market_data_pipel.Backtest.Metrics.{buy_and_hold}
use crypto_market_data_pipel.Backtest.Runner.{
  BacktestResult, Settings, with_index, sma, position_series, result_with, run_backtest,
}

module _ (n : Numbers) where
  -- The rows, and the average of their closing prices, of some candles.
  abbrev pub rows_of_candles : List (Candle n.D) → List (Row n)
  rows_of_candles = map (row_of_candle n)

  abbrev pub average : List (Candle n.D) → ℕ → Series n
  average candles window =
      let df = rows_of_candles candles in
      with_index n df (n.rolling_mean window (map (λ row. row.close) df))

  -- Candles with whether the strategy is in the market at each.
  abbrev pub ticks_of : List (Candle n.D) → List (ℕ × Bool) → List (Tick n)
  ticks_of [] held = []
  ticks_of (c ∷ cs) [] = []
  ticks_of (c ∷ cs) ((t, b) ∷ held) = (c.ts, c.open_price, b) ∷ ticks_of cs held

  with_index-index :
      (candles : List (Candle n.D)) (xs : List (Option n.F))
      → map (λ x. x.0) (with_index n (rows_of_candles candles) xs) ≡ map (λ c. c.ts) candles
  with_index-index [] xs = refl
  with_index-index (c ∷ cs) [] = ap (λ l. c.ts ∷ l) (with_index-index cs [])
  with_index-index (c ∷ cs) (x ∷ xs) = ap (λ l. c.ts ∷ l) (with_index-index cs xs)

  sma-ok :
      (df : List (Row n)) (window : ℕ) (s : Series n)
      → sma n df window ≡ ok s
      → s ≡ with_index n df (n.rolling_mean window (map (λ row. row.close) df))
  sma-ok df window s h = ground arith

  -- The position of a run is the crossover of the two averages.
  pub position_series-ok :
      (candles : List (Candle n.D)) (fast_window slow_window : ℕ) (p : List (ℕ × ℕ))
      → position_series n (rows_of_candles candles) fast_window slow_window ≡ ok p
      → sma_crossover n (average candles fast_window) (average candles slow_window) ≡ ok p
  unfolding position_series
  position_series-ok candles fast_window slow_window p h =
      let df = rows_of_candles candles in
      let (fast, e, h') = >>=-ok (sma n df fast_window) _ p h in
      let (slow, e', k) = >>=-ok (sma n df slow_window) _ p h' in
      ap (λ s. sma_crossover n s (average candles slow_window)) (sym (sma-ok df fast_window fast e))
      ∙ ap (λ s. sma_crossover n fast s) (sym (sma-ok df slow_window slow e'))
      ∙ k

  ticks_of-position_of :
      (cs : List (Candle n.D)) (held : List (ℕ × Bool))
      → map (λ x. x.0) held ≡ map (λ c. c.ts) cs
      → map (position_of n) (ticks_of cs held) ≡ map (mark n) held
  ticks_of-position_of [] [] e = refl
  ticks_of-position_of [] (x ∷ held) e = cc
  ticks_of-position_of (c ∷ cs) [] e = cc
  ticks_of-position_of (c ∷ cs) ((t, b) ∷ held) e =
      let same : t ≡ c.ts = cc in
      let later : map (λ (x : ℕ × Bool). x.0) held ≡ map (λ (c : Candle n.D). c.ts) cs = cc in
      ap (λ u. mark n (u, b) ∷ map (position_of n) (ticks_of cs held)) (sym same)
      ∙ ap (λ l. mark n (t, b) ∷ l) (ticks_of-position_of cs held later)

  ticks_of-IsPriced :
      (set : Settings n) (prices : List (ℕ × n.D)) (cs : List (Candle n.D)) (held : List (ℕ × Bool))
      → All (λ c. price_at n prices c.ts ≡ ok c.open_price) cs
      → IsPriced n set.costs prices (ticks_of cs held)
  ticks_of-IsPriced set prices [] held h = tt
  ticks_of-IsPriced set prices (c ∷ cs) [] h = tt
  ticks_of-IsPriced set prices (c ∷ cs) ((t, b) ∷ held) (h, hs) =
      (h, ticks_of-IsPriced set prices cs held hs)

  pub ticks_of-IsAscending :
      (t : ℕ) (cs : List (Candle n.D)) (held : List (ℕ × Bool))
      → Ascends t (map (λ c. c.ts) cs)
      → IsAscending n t (ticks_of cs held)
  ticks_of-IsAscending t [] held a = tt
  ticks_of-IsAscending t (c ∷ cs) [] a = tt
  ticks_of-IsAscending t (c ∷ cs) ((u, b) ∷ held) (a, as') =
      (a, ticks_of-IsAscending c.ts cs held as')

  -- What a run has done: the position is 0 at the first candle and follows `held` after it, the
  -- trades are the round trips of the candles with `held`, the final cash is what the last stance is
  -- worth, and the metrics tell of this simulation.
  abbrev pub IsRunOf :
      Candle n.D
      → List (Candle n.D)
      → Settings n
      → ℕ
      → ℕ
      → BacktestResult n
      → List (ℕ × Bool)
      → Type 0
  IsRunOf first rest set fast_window slow_window r held =
      let candles = first ∷ rest in
      let after = round_trips n set.costs (flat set.initial_capital) (ticks_of rest held) in
      (sma_crossover n (average candles fast_window) (average candles slow_window)
        ≡ ok ((first.ts, 0) ∷ map (mark n) held))
      × (map (λ x. x.0) held ≡ map (λ c. c.ts) rest)
      × (r.simulation.trades ≡ after.0 ++ pending n after.1)
      × IsOrdered n first.ts r.simulation.trades
      × (r.metrics.final_equity ≡ worth n (last_or first rest).close after.1)
      × (r.metrics.trade_count ≡ length r.simulation.trades)
      × (r.metrics.frame_info.candle_count ≡ length candles)
      × Ascends first.ts (map (λ c. c.ts) rest)

  mark-time : (held : List (ℕ × Bool)) → map (λ x. x.0) (map (mark n) held) ≡ map (λ x. x.0) held
  mark-time [] = refl
  mark-time ((t, b) ∷ held) = ap (λ l. t ∷ l) (mark-time held)

  -- The parts of a successful run.
  run_backtest-parts :
      (first : Candle n.D) (rest : List (Candle n.D)) (set : Settings n)
      (fast_window slow_window : ℕ) (r : BacktestResult n)
      → run_backtest n (first ∷ rest) set fast_window slow_window ≡ ok r
      → (p : PreparedData n) × (prepare_candles n (first ∷ rest) set.interval set.allow_gaps ≡ ok p)
        × (pos : List (ℕ × ℕ)) × (position_series n p.df fast_window slow_window ≡ ok pos)
        × (simulate n pos p set.initial_capital set.costs ≡ ok r.simulation)
        × (r.metrics.final_equity ≡ r.simulation.final_cash)
        × (r.metrics.trade_count ≡ length r.simulation.trades)
        × (r.metrics.frame_info ≡ p.info)
  unfolding run_backtest
  run_backtest-parts first rest set fast_window slow_window r h =
      let (p, e1, h1) =
        >>=-ok (prepare_candles n (first ∷ rest) set.interval set.allow_gaps) _ r h in
      let (pos, e2, h2) = >>=-ok (position_series n p.df fast_window slow_window) _ r h1 in
      let (sim, e3, h3) = >>=-ok (simulate n pos p set.initial_capital set.costs) _ r h2 in
      let (bh, e4, h4) = >>=-ok (buy_and_hold n p set.initial_capital set.costs) _ r h3 in
      let made : result_with n set p sim bh ≡ r = cc in
      (
        p,
        e1,
        pos,
        e2,
        e3 ∙ ap (λ q. ok q.simulation) made,
        sym (ap (λ q. q.metrics.final_equity) made) ∙ ap (λ q. q.simulation.final_cash) made,
        sym (ap (λ q. q.metrics.trade_count) made) ∙ ap (λ q. length q.simulation.trades) made,
        sym (ap (λ q. q.metrics.frame_info) made),
      )

  -- Positions that start at some time and stand at those of the candles start at the first candle.
  positions-ticks :
      (first : Candle n.D) (rest : List (Candle n.D)) (t : ℕ) (held : List (ℕ × Bool))
      (pos : List (ℕ × ℕ))
      → pos ≡ (t, 0) ∷ map (mark n) held
      → map (λ x. x.0) pos ≡ map (λ c. c.ts) (first ∷ rest)
      → (pos ≡ (first.ts, 0) ∷ map (mark n) held)
        × (pos ≡ (first.ts, 0) ∷ map (position_of n) (ticks_of rest held))
        × (map (λ x. x.0) held ≡ map (λ c. c.ts) rest)
  positions-ticks first rest t held pos e i =
      let i' = sym (ap (λ l. map (λ (x : ℕ × ℕ). x.0) l) e) ∙ i in
      let start : t ≡ first.ts = cc in
      let times : map (λ (x : ℕ × ℕ). x.0) (map (mark n) held)
          ≡ map (λ (c : Candle n.D). c.ts) rest =
        cc in
      let same = sym (mark-time held) ∙ times in
      let pos' = e ∙ ap (λ u. (u, 0) ∷ map (mark n) held) start in
      (pos', pos' ∙ ap (λ l. (first.ts, 0) ∷ l) (sym (ticks_of-position_of rest held same)), same)

  -- Where `run_backtest` returns, its result is that of the round trips of the candles: there is a
  -- series that says for each candle after the first whether the strategy is in the market, which is
  -- the crossover of the two averages of closing prices; the trades are the round trips of the candles
  -- by it with the trade that is still open, in order of time; the final equity is what the last stance
  -- is worth at the last close; the metrics count these trades and the candles.
  pub run_backtest-IsRunOf :
      (first : Candle n.D) (rest : List (Candle n.D)) (set : Settings n)
      (fast_window slow_window : ℕ) (r : BacktestResult n)
      → run_backtest n (first ∷ rest) set fast_window slow_window ≡ ok r
      → (held : List (ℕ × Bool)) × IsRunOf first rest set fast_window slow_window r held
  run_backtest-IsRunOf first rest set fast_window slow_window r h =
      let candles = first ∷ rest in
      let (p, e, pos, position, ran, equity, count, info) =
        run_backtest-parts first rest set fast_window slow_window r h in
      let (k, shape, asc) = prepare_candles-frame_of n first rest set.interval set.allow_gaps p e in
      let (priced, _) = prepare_candles-price_at n first rest set.interval set.allow_gaps p e in
      let df = ap (λ q. q.df) shape in
      let crossed =
        position_series-ok candles fast_window slow_window pos
          (sym (ap (λ rows. position_series n rows fast_window slow_window) df) ∙ position) in
      let (t, held, starts, index) =
        sma_crossover-mark n (average candles fast_window) (average candles slow_window) pos
          crossed in
      let times = index ∙ with_index-index candles _ in
      let (marked, ticked, same) = positions-ticks first rest t held pos starts times in
      let ticks = ticks_of rest held in
      let prices = ticks_of-IsPriced set p.prices rest held priced.1 in
      let ran' = sym (ap (λ l. simulate n l p set.initial_capital set.costs) ticked) ∙ ran in
      let (trades, cash) =
        simulate-round_trips n set.costs p set.initial_capital _ _ first.ts ticks r.simulation df
          prices ran' in
      let ordered =
        simulate-IsOrdered n set.costs p set.initial_capital _ _ first.ts ticks r.simulation df
          prices (ticks_of-IsAscending first.ts rest held asc) ran' in
      let close = ap (λ q. q.final_close) shape in
      let after = round_trips n set.costs (flat set.initial_capital) ticks in
      (
        held,
        (
          crossed ∙ ap (λ l. ok l) marked,
          same,
          trades,
          ordered,
          equity ∙ cash ∙ ap (λ d. worth n d after.1) close,
          count,
          ap (λ i. i.candle_count) info ∙ ap (λ q. q.info.candle_count) shape,
          asc,
        ),
      )
