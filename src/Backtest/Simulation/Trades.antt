-- ===== src/Backtest/Simulation/Trades.antt =====
-- The loop of `simulate` against round trips in and out of the market.
use mathlib.Core.List.{append-nil, append_assoc}
use crypto_market_data_pipel.Prelude.{
  ℕ, ◌≡◌, refl, sym, ap, ◌∙◌, Bool, true, false, Option, none, some, List, [], ◌∷◌, ◌++◌, map, All,
  if◌then◌else◌,
}
use crypto_market_data_pipel.Common.Errors.{Result, ok, err, ◌>>=◌, ok-inj}
use crypto_market_data_pipel.Backtest.Numbers.{Numbers}
use crypto_market_data_pipel.Backtest.Frame.{Row, PreparedData, price_at}
use crypto_market_data_pipel.Backtest.Simulation.{
  TradeRecord, SimulationResult, Ledger, Costs, execute_buy, execute_sell, entered, enter, leave,
  follow, initial_ledger, result_of, simulate, simulate_on,
}

module _ (n : Numbers) where
  -- A minute: its time, its opening price, and whether the strategy is in the market.
  abbrev pub Tick : Type 0
  Tick = ℕ × n.D × Bool

  abbrev pub position_of : Tick → ℕ × ℕ
  position_of (ts, price, held) = (ts, if held then 1 else 0)

  -- Out of the market with cash, or in it since a minute, with what was paid, bought and charged.
  pub data Stance : Type 0 where
    flat : n.D → Stance
    long : (spent quantity fee : n.D) → ℕ → n.D → Stance

  -- A purchase that raises ends `simulate`; the cash is then not spent.
  abbrev pub bought : n.D → ℕ → n.D → Result (n.D × n.D) → Stance
  bought cash ts price (ok (quantity, fee)) = long cash quantity fee ts price
  bought cash ts price (err e) = flat cash

  abbrev pub round_trip : (spent entry_fee : n.D) → ℕ → n.D → ℕ → n.D → n.D × n.D → TradeRecord n
  round_trip spent entry_fee entry_ts entry_price ts price (cash, fee) = record {
    entry_ts = some entry_ts;
    exit_ts = some ts;
    entry_price = some entry_price;
    exit_price = some price;
    fees = n.add entry_fee fee;
    pnl = some (n.sub cash spent);
  }

  -- The round trips of a series of minutes, all the cash going into each, and the stance after it.
  abbrev pub round_trips : Costs n → Stance → List Tick → List (TradeRecord n) × Stance
  round_trips costs stance [] = ([], stance)
  round_trips costs (flat cash) ((ts, price, true) ∷ rest) =
      round_trips costs (bought cash ts price (execute_buy n cash price costs)) rest
  round_trips costs (flat cash) ((ts, price, false) ∷ rest) = round_trips costs (flat cash) rest
  round_trips costs (long spent quantity fee ts price) ((t, now, true) ∷ rest) =
      round_trips costs (long spent quantity fee ts price) rest
  round_trips costs (long spent quantity fee ts price) ((t, now, false) ∷ rest) =
      let sale = execute_sell n quantity now costs in
      let (trades, after) = round_trips costs (flat sale.0) rest in
      (round_trip spent fee ts price t now sale ∷ trades, after)

  -- The trade of a stance, which is not closed.
  abbrev pub pending : Stance → List (TradeRecord n)
  pending (flat cash) = []
  pending (long spent quantity fee ts price) =
      record {
        entry_ts = some ts;
        exit_ts = none;
        entry_price = some price;
        exit_price = none;
        fees = fee;
        pnl = none;
      }
      ∷ []

  -- What a stance is worth at a price. (Out of the market, the code adds a quantity of 0.)
  abbrev pub worth : n.D → Stance → n.D
  worth close (flat cash) = n.add cash (n.mul n.zero_d close)
  worth close (long spent quantity fee ts price) = n.add n.zero_d (n.mul quantity close)

  -- The parts of the ledger that the stance says nothing of.
  pub record Past : Type 0 where
    pub trades : List (TradeRecord n)
    pub cash_at_entry : n.D
    pub total_fees : n.D
    pub entry_ts : Option ℕ
    pub entry_price : Option n.D
    pub curve_list : List (ℕ × n.D × n.D)

  abbrev pub ledger_of : Stance → Past → Ledger n
  ledger_of (flat cash) p = record {
    cash = cash;
    quantity = n.zero_d;
    trades = p.trades;
    cash_at_entry = p.cash_at_entry;
    total_fees = p.total_fees;
    entry_ts = p.entry_ts;
    entry_price = p.entry_price;
    entry_fee = n.zero_d;
    curve_list = p.curve_list;
    is_open = false;
  }
  ledger_of (long spent quantity fee ts price) p = record {
    cash = n.zero_d;
    quantity = quantity;
    trades = p.trades;
    cash_at_entry = spent;
    total_fees = p.total_fees;
    entry_ts = some ts;
    entry_price = some price;
    entry_fee = fee;
    curve_list = p.curve_list;
    is_open = true;
  }

  abbrev pub held_in : Stance → ℕ
  held_in (flat cash) = 0
  held_in (long spent quantity fee ts price) = 1

  module _ (costs : Costs n) (prices : List (ℕ × n.D)) where
    -- The price of each minute is known.
    abbrev pub IsPriced : List Tick → Type 0
    IsPriced = All (λ tick. price_at n prices tick.0 ≡ ok tick.1)

    pub follow-enter :
        (ts : ℕ) (price : n.D) (rest : List (ℕ × ℕ)) (s : Ledger n)
        → price_at n prices ts ≡ ok price
        → follow n costs prices 0 ((ts, 1) ∷ rest) s
          ≡ (enter n costs ts price s >>= follow n costs prices 1 rest)
    unfolding follow
    follow-enter ts price rest s h = rw (follow, h) refl

    pub follow-leave :
        (ts : ℕ) (price : n.D) (rest : List (ℕ × ℕ)) (s : Ledger n)
        → price_at n prices ts ≡ ok price
        → follow n costs prices 1 ((ts, 0) ∷ rest) s
          ≡ follow n costs prices 0 rest (leave n costs ts price s)
    unfolding follow
    follow-leave ts price rest s h = rw (follow, h) refl

    -- The ledger is the one of the stance after some round trips, with these behind the trades before.
    abbrev Ends : Past → Ledger n → List (TradeRecord n) × Stance → Type 0
    Ends p s after = (q : Past) × (s ≡ ledger_of after.1 q) × (q.trades ≡ p.trades ++ after.0)

    follow-Ends :
        (ticks : List Tick) (stance : Stance) (p : Past) (s : Ledger n)
        → IsPriced ticks
        → follow n costs prices (held_in stance) (map position_of ticks) (ledger_of stance p) ≡ ok s
        → Ends p s (round_trips costs stance ticks)
    unfolding follow
    follow-Ends [] stance p s h ran = (p, sym (ok-inj ran), sym (append-nil p.trades))
    follow-Ends ((ts, price, true) ∷ rest) (flat cash) p s (h, hs) ran =
        split (follow-Ends rest) (execute_buy n cash price costs)
          (sym (follow-enter ts price (map position_of rest) (ledger_of (flat cash) p) h) ∙ ran)
      where
        split :
            ((stance : Stance) (p : Past) (s : Ledger n)
              → IsPriced rest
              → follow n costs prices (held_in stance) (map position_of rest) (ledger_of stance p)
                ≡ ok s
              → Ends p s (round_trips costs stance rest))
            → (purchase : Result (n.D × n.D))
            → ((purchase >>= λ b. ok (entered n ts price (ledger_of (flat cash) p) b))
                >>= follow n costs prices 1 (map position_of rest))
              ≡ ok s
            → Ends p s (round_trips costs (bought cash ts price purchase) rest)
        split ih (err e) ran = cc
        split ih (ok (quantity, fee)) ran =
            let p' : Past = record {
              trades = p.trades;
              cash_at_entry = cash;
              total_fees = n.add p.total_fees fee;
              entry_ts = some ts;
              entry_price = some price;
              curve_list = p.curve_list ++ ((ts, n.zero_d, quantity) ∷ []);
            } in
            ih (long cash quantity fee ts price) p' s hs ran
    follow-Ends ((ts, price, false) ∷ rest) (flat cash) p s (h, hs) ran =
        follow-Ends rest (flat cash) p s hs ran
    follow-Ends ((t, now, true) ∷ rest) (long spent quantity fee ts price) p s (h, hs) ran =
        follow-Ends rest (long spent quantity fee ts price) p s hs ran
    follow-Ends ((t, now, false) ∷ rest) (long spent quantity fee ts price) p s (h, hs) ran =
        let stance = long spent quantity fee ts price in
        let (cash, charge) = execute_sell n quantity now costs in
        let trade = round_trip spent fee ts price t now (cash, charge) in
        let p' : Past = record {
          trades = p.trades ++ (trade ∷ []);
          cash_at_entry = spent;
          total_fees = n.add p.total_fees charge;
          entry_ts = some ts;
          entry_price = some price;
          curve_list = p.curve_list ++ ((t, cash, n.zero_d) ∷ []);
        } in
        let ran' = sym (follow-leave t now (map position_of rest) (ledger_of stance p) h) ∙ ran in
        let (q, e, d) = follow-Ends rest (flat cash) p' s hs ran' in
        (q, e, d ∙ append_assoc p.trades (trade ∷ []) _)

  -- With a position that starts at 0 and is 0 or 1 at each later minute of a known price, where
  -- `simulate` returns, on a frame that is not empty: its trades are the round trips of the minutes with
  -- the trade that is still open after them, and its final cash is what the last stance is worth at the
  -- last close.
  pub simulate-round_trips :
      (costs : Costs n) (prepared : PreparedData n) (capital : n.D) (row : Row n)
      (rows : List (Row n)) (first : ℕ) (ticks : List Tick) (r : SimulationResult n)
      → prepared.df ≡ row ∷ rows
      → IsPriced costs prepared.prices ticks
      → simulate n ((first, 0) ∷ map position_of ticks) prepared capital costs ≡ ok r
      → let after = round_trips costs (flat capital) ticks in
        (r.trades ≡ after.0 ++ pending after.1)
        × (r.final_cash ≡ worth prepared.final_close after.1)
  unfolding simulate
  simulate-round_trips costs prepared capital row rows first ticks r e h ran =
      let p : Past = record {
        trades = [];
        cash_at_entry = capital;
        total_fees = n.zero_d;
        entry_ts = none;
        entry_price = none;
        curve_list = (row.index, capital, n.zero_d) ∷ [];
      } in
      let moves = (first, 0) ∷ map position_of ticks in
      let ran' = sym (ap (λ frame. simulate_on n frame moves prepared capital costs) e) ∙ ran in
      done p
        (follow n costs prepared.prices 0 (map position_of ticks)
          (initial_ledger n row.index capital))
        (λ s ended. follow-Ends costs prepared.prices ticks (flat capital) p s h ended) ran'
    where
      told :
          (last : Stance) (q : Past) (trades : List (TradeRecord n))
          → q.trades ≡ trades
          → result_of n prepared capital (ok (ledger_of last q)) ≡ ok r
          → (r.trades ≡ trades ++ pending last) × (r.final_cash ≡ worth prepared.final_close last)
      told (flat cash) q trades same ran =
          let it = sym (ok-inj ran) in
          (ap (λ x. x.trades) it ∙ ap (λ l. l ++ []) same, ap (λ x. x.final_cash) it)
      told (long spent quantity fee ts price) q trades same ran =
          let it = sym (ok-inj ran) in
          (
            ap (λ x. x.trades) it ∙ ap (λ l. l ++ pending (long spent quantity fee ts price)) same,
            ap (λ x. x.final_cash) it,
          )

      done :
          (p : Past) (led : Result (Ledger n))
          → ((s : Ledger n)
              → led ≡ ok s
              → Ends costs prepared.prices p s (round_trips costs (flat capital) ticks))
          → result_of n prepared capital led ≡ ok r
          → let after = round_trips costs (flat capital) ticks in
            (r.trades ≡ (p.trades ++ after.0) ++ pending after.1)
            × (r.final_cash ≡ worth prepared.final_close after.1)
      done p (err e) ends ran = cc
      done p (ok s) ends ran =
          let after = round_trips costs (flat capital) ticks in
          let (q, same, trades) = ends s refl in
          told after.1 q (p.trades ++ after.0) trades
            (sym (ap (λ l. result_of n prepared capital (ok l)) same) ∙ ran)
