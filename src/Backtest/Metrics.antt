-- ===== src/Backtest/Metrics.antt =====
-- src/crypto_pipeline/backtest/metrics.py: figures of a finished simulation.
use crypto_market_data_pipel.Prelude.{
  ℕ, zero, suc, ◌+◌, Bool, not, ◌&&◌, Option, none, some, List, [], ◌∷◌, if◌then◌else◌,
}
use crypto_market_data_pipel.Common.Errors.{Result, ok, err, ◌>>=◌, index_error}
use crypto_market_data_pipel.Backtest.Numbers.{Numbers}
use crypto_market_data_pipel.Backtest.Frame.{PreparedData, Row, price_at}
use crypto_market_data_pipel.Backtest.Simulation.{TradeRecord, Costs, execute_buy, execute_sell}

module _ (n : Numbers) where
  abbrev pub total_return : n.F → n.F → n.F
  total_return initial final = n.sub_f (n.div_f final initial) n.one_f

  -- The least of `(equity - peak) / peak`, from a peak and a least value so far.
  abbrev pub drawdown_from : n.F → n.F → List n.F → n.F
  drawdown_from peak least [] = least
  drawdown_from peak least (x ∷ xs) =
      let peak' = if n.ltb_f peak x then x else peak in
      let drawdown = n.div_f (n.sub_f x peak') peak' in
      drawdown_from peak' (if n.ltb_f drawdown least then drawdown else least) xs

  abbrev pub max_drawdown : List n.F → Option n.F
  max_drawdown [] = none
  max_drawdown (x ∷ xs) = some (drawdown_from x (n.div_f (n.sub_f x x) x) xs)

  -- `sd == 0`
  abbrev pub is_zero : n.F → Bool
  is_zero x = not (n.ltb_f x n.zero_f) && not (n.ltb_f n.zero_f x)

  abbrev pub sharpe_of : ℕ → List n.F → Option n.F → Option n.F
  sharpe_of periods_per_year [] sd = none
  sharpe_of periods_per_year (x ∷ xs) none = none
  sharpe_of periods_per_year (x ∷ xs) (some sd) =
      if is_zero sd
      then none
      else some (n.mul_f (n.div_f (n.mean (x ∷ xs)) sd) (n.sqrt periods_per_year))

  abbrev pub sharpe : List n.F → ℕ → Option n.F
  sharpe equity periods_per_year =
      let returns = n.pct_change equity in sharpe_of periods_per_year returns (n.std returns)

  -- The trades with a pnl, and those among them with a positive one.
  abbrev pub count_closed : List (TradeRecord n) → ℕ
  count_closed [] = 0
  count_closed (t ∷ ts) = elim t.pnl [ none ↦ count_closed ts | some pnl ↦ suc (count_closed ts) ]

  abbrev pub count_wins : List (TradeRecord n) → ℕ
  count_wins [] = 0
  count_wins (t ∷ ts) = elim t.pnl [
    | none ↦ count_wins ts
    | some pnl ↦ (if n.ltb_d n.zero_d pnl then 1 else 0) + count_wins ts
  ]

  abbrev pub rate : ℕ → ℕ → Option n.F
  rate wins zero = none
  rate wins (suc closed) = some (n.ratio wins (suc closed))

  abbrev pub win_rate : List (TradeRecord n) → Option n.F
  win_rate trades = rate (count_wins trades) (count_closed trades)

  abbrev pub last_index : ℕ → List (Row n) → ℕ
  last_index ts [] = ts
  last_index ts (row ∷ rows) = last_index row.index rows

  -- A round trip with all the capital from the first opening price to the last close.
  abbrev pub hold : PreparedData n → n.D → Costs n → List (Row n) → Result (TradeRecord n)
  hold prepared initial_capital costs [] = err index_error
  hold prepared initial_capital costs (row ∷ rows) = do
    price ← price_at n prepared.prices row.index
    (quantity, entry_fee) ← execute_buy n initial_capital price costs
    let (cash, fee) = execute_sell n quantity prepared.final_close costs
    ok (record {
      entry_ts = some row.index;
      exit_ts = some (last_index row.index rows);
      entry_price = some price;
      exit_price = some prepared.final_close;
      fees = n.add entry_fee fee;
      pnl = some (n.sub cash initial_capital);
    })

  abbrev pub buy_and_hold : PreparedData n → n.D → Costs n → Result (TradeRecord n)
  buy_and_hold prepared initial_capital costs = hold prepared initial_capital costs prepared.df
