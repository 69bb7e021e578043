-- ===== src/Backtest/Simulation.antt =====
-- src/crypto_pipeline/backtest/simulation.py: the ledger of a strategy that is in or out of the market.
pub mod Trades
pub mod Order
pub mod Returns
use crypto_market_data_pipel.Prelude.{
  ℕ, zero, suc, ◌+◌, Bool, true, false, Option, none, some, List, [], ◌∷◌, ◌++◌, ◌==◌,
  if◌then◌else◌,
}
use crypto_market_data_pipel.Common.Errors.{Result, ok, err, ◌>>=◌, index_error}
use crypto_market_data_pipel.Backtest.Numbers.{Numbers}
use crypto_market_data_pipel.Backtest.Frame.{Row, PreparedData, price_at}

module _ (n : Numbers) where
  pub record TradeRecord : Type 0 where
    pub entry_ts : Option ℕ
    pub exit_ts : Option ℕ
    pub entry_price : Option n.D
    pub exit_price : Option n.D
    pub fees : n.D
    pub pnl : Option n.D

  pub record SimulationResult : Type 0 where
    pub trades : List TradeRecord
    pub equity_curve : List (ℕ × n.F)
    pub final_cash : n.D
    pub total_fees : n.D

  -- The variables of the loop. An entry of the curve is a time, the cash and the quantity.
  pub record Ledger : Type 0 where
    pub cash : n.D
    pub quantity : n.D
    pub trades : List TradeRecord
    pub cash_at_entry : n.D
    pub total_fees : n.D
    pub entry_ts : Option ℕ
    pub entry_price : Option n.D
    pub entry_fee : n.D
    pub curve_list : List (ℕ × n.D × n.D)
    pub is_open : Bool

  -- What a run takes from its caller, but for the positions.
  pub record Costs : Type 0 where
    pub fee_rate : n.D
    pub slippage : n.D

  -- The quantity and the fee.
  abbrev pub execute_buy : n.D → n.D → Costs → Result (n.D × n.D)
  execute_buy cash price costs = do
    let buy_fill = n.mul price (n.add n.one costs.slippage)
    let fee = n.mul cash costs.fee_rate
    let spend = n.sub cash fee
    quotient ← n.div spend buy_fill
    quantity ← n.quantize quotient
    ok (quantity, fee)

  -- The cash and the fee.
  abbrev pub execute_sell : n.D → n.D → Costs → n.D × n.D
  execute_sell quantity price costs =
      let sell_fill = n.mul price (n.sub n.one costs.slippage) in
      let sell_equity = n.mul quantity sell_fill in
      let fee = n.mul sell_equity costs.fee_rate in (n.sub sell_equity fee, fee)

  -- What the branch `change == 1` leaves of a purchase.
  abbrev pub entered : ℕ → n.D → Ledger → n.D × n.D → Ledger
  entered ts price s (quantity, entry_fee) = record {
    cash = n.zero_d;
    quantity = quantity;
    trades = s.trades;
    cash_at_entry = s.cash;
    total_fees = n.add s.total_fees entry_fee;
    entry_ts = some ts;
    entry_price = some price;
    entry_fee = entry_fee;
    curve_list = s.curve_list ++ ((ts, n.zero_d, quantity) ∷ []);
    is_open = true;
  }

  -- The branch `change == 1`, at a price.
  abbrev pub enter : Costs → ℕ → n.D → Ledger → Result Ledger
  enter costs ts price s =
      execute_buy s.cash price costs >>= λ purchase. ok (entered ts price s purchase)

  -- The branch `change == -1`.
  abbrev pub leave : Costs → ℕ → n.D → Ledger → Ledger
  leave costs ts price s =
      let (cash, fee) = execute_sell s.quantity price costs in
      let trade : TradeRecord = record {
        entry_ts = s.entry_ts;
        exit_ts = some ts;
        entry_price = s.entry_price;
        exit_price = some price;
        fees = n.add s.entry_fee fee;
        pnl = some (n.sub cash s.cash_at_entry);
      } in
      record {
        cash = cash;
        quantity = n.zero_d;
        trades = s.trades ++ (trade ∷ []);
        cash_at_entry = s.cash_at_entry;
        total_fees = n.add s.total_fees fee;
        entry_ts = s.entry_ts;
        entry_price = s.entry_price;
        entry_fee = n.zero_d;
        curve_list = s.curve_list ++ ((ts, cash, n.zero_d) ∷ []);
        is_open = false;
      }

  -- One round, for the change from a position to the next.
  abbrev pub on_change : Costs → List (ℕ × n.D) → ℕ → ℕ → ℕ → Ledger → Result Ledger
  on_change costs prices ts before after s =
      if after == before + 1
      then price_at n prices ts >>= (λ price. enter costs ts price s)
      else if before == after + 1
      then price_at n prices ts >>= (λ price. ok (leave costs ts price s))
      else ok s

  -- `for ts, change in changes.items()`, from the second position on: the first has no change.
  unfoldable pub follow : Costs → List (ℕ × n.D) → ℕ → List (ℕ × ℕ) → Ledger → Result Ledger
  follow costs prices before [] s = ok s
  follow costs prices before ((ts, after) ∷ rest) s =
      on_change costs prices ts before after s >>= follow costs prices after rest

  -- The trade that is still open at the end.
  abbrev pub open_trade : Ledger → List TradeRecord
  open_trade s =
      if s.is_open
      then record {
        entry_ts = s.entry_ts;
        exit_ts = none;
        entry_price = s.entry_price;
        exit_price = none;
        fees = s.entry_fee;
        pnl = none;
      }
        ∷ []
      else []

  -- The entry of the curve at a time, or the one before: `reindex`, `ffill`.
  abbrev pub state_at : n.D × n.D → ℕ → List (ℕ × n.D × n.D) → n.D × n.D
  state_at before ts [] = before
  state_at before ts ((t, cash, quantity) ∷ curve) =
      if t == ts then (cash, quantity) else state_at before ts curve

  abbrev pub equity_from : List (ℕ × n.D × n.D) → n.D × n.D → List (Row n) → List (ℕ × n.F)
  equity_from curve before [] = []
  equity_from curve before (row ∷ rows) =
      let (cash, quantity) = state_at before row.index curve in
      (row.index, n.add_f (n.float cash) (n.mul_f (n.float quantity) row.close))
      ∷ equity_from curve (cash, quantity) rows

  abbrev pub initial_ledger : ℕ → n.D → Ledger
  initial_ledger first_ts initial_capital = record {
    cash = initial_capital;
    quantity = n.zero_d;
    trades = [];
    cash_at_entry = initial_capital;
    total_fees = n.zero_d;
    entry_ts = none;
    entry_price = none;
    entry_fee = n.zero_d;
    curve_list = (first_ts, initial_capital, n.zero_d) ∷ [];
    is_open = false;
  }

  abbrev pub result_of : PreparedData n → n.D → Result Ledger → Result SimulationResult
  result_of prepared_data initial_capital (err e) = err e
  result_of prepared_data initial_capital (ok s) = ok (record {
    trades = s.trades ++ open_trade s;
    equity_curve = equity_from s.curve_list (initial_capital, n.zero_d) prepared_data.df;
    final_cash = n.add s.cash (n.mul s.quantity prepared_data.final_close);
    total_fees = s.total_fees;
  })

  -- `changes = position.diff()` and the loop over it.
  abbrev pub follow_all : Costs → List (ℕ × n.D) → List (ℕ × ℕ) → Ledger → Result Ledger
  follow_all costs prices [] s = ok s
  follow_all costs prices ((ts, before) ∷ rest) s = follow costs prices before rest s

  abbrev pub simulate_on :
      List (Row n) → List (ℕ × ℕ) → PreparedData n → n.D → Costs → Result SimulationResult
  simulate_on [] position prepared_data initial_capital costs = err index_error
  simulate_on (row ∷ rows) position prepared_data initial_capital costs =
      result_of prepared_data initial_capital
        (follow_all costs prepared_data.prices position (initial_ledger row.index initial_capital))

  unfoldable pub simulate : List (ℕ × ℕ) → PreparedData n → n.D → Costs → Result SimulationResult
  simulate position prepared_data initial_capital costs =
      simulate_on prepared_data.df position prepared_data initial_capital costs
