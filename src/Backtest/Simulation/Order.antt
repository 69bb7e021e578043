-- ===== src/Backtest/Simulation/Order.antt =====
-- The order of the trades that `simulate` records.
use mathlib.Core.Path.{subst}
use crypto_market_data_pipel.Prelude.{
  ℕ, ◌≡◌, ◌≢◌, ◌≤◌, ◌<◌, refl, sym, ◌⊎◌, inl, inr, true, false, none, some, List, [], ◌∷◌, ◌++◌,
  map, arith,
}
use crypto_market_data_pipel.Common.Errors.{Result, ok, err}
use crypto_market_data_pipel.Backtest.Numbers.{Numbers}
use crypto_market_data_pipel.Backtest.Frame.{Row, PreparedData}
use crypto_market_data_pipel.Backtest.Simulation.{
  TradeRecord, SimulationResult, Costs, execute_buy, execute_sell, simulate,
}
use crypto_market_data_pipel.Backtest.Simulation.Trades.{
  Tick, position_of, Stance, flat, long, bought, round_trips, pending, IsPriced,
  simulate-round_trips,
}

module _ (n : Numbers) where
  -- The trade is still open, or it is closed at a time from which something holds.
  abbrev pub IsDone : ℕ → TradeRecord n → Type 0 → (ℕ → Type 0) → Type 0
  IsDone entry trade at_end after =
      ((trade.exit_ts ≡ none) × (trade.pnl ≡ none) × at_end)
      ⊎ ((exit : ℕ) × (trade.exit_ts ≡ some exit)
          × (trade.pnl ≢ none)
          × (entry < exit)
          × after exit)

  -- The trades of a list come one after another, each entered after a time and left later, and only
  -- the last may be open.
  abbrev pub IsOrdered : ℕ → List (TradeRecord n) → Type 0
  IsOrdered t [] = Unit
  IsOrdered t (trade ∷ rest) =
      (entry : ℕ) × (trade.entry_ts ≡ some entry)
      × (t < entry)
      × IsDone entry trade (rest ≡ []) (λ exit. IsOrdered exit rest)

  -- The times of a series of minutes ascend.
  abbrev pub IsAscending : ℕ → List (Tick n) → Type 0
  IsAscending t [] = Unit
  IsAscending t ((ts, price, held) ∷ rest) = (t < ts) × IsAscending ts rest

  abbrev Since : ℕ → ℕ → Stance n → Type 0
  Since t u (flat cash) = t ≤ u
  Since t u (long spent quantity fee entry price) = (t < entry) × (entry ≤ u)

  Since-bought :
      (cash : n.D) (ts : ℕ) (price : n.D) (t u : ℕ)
      → t ≤ u
      → u < ts
      → (purchase : Result (n.D × n.D)) → Since t ts (bought n cash ts price purchase)
  Since-bought cash ts price t u s a (ok (quantity, fee)) = (omega arith, omega arith)
  Since-bought cash ts price t u s a (err e) = omega arith

  round_trips-IsOrdered :
      (costs : Costs n) (ticks : List (Tick n)) (stance : Stance n) (t u : ℕ)
      → Since t u stance
      → IsAscending u ticks
      → IsOrdered t
          ((round_trips n costs stance ticks).0 ++ pending n (round_trips n costs stance ticks).1)
  round_trips-IsOrdered costs [] (flat cash) t u s a = tt
  round_trips-IsOrdered costs [] (long spent quantity fee entry price) t u (s, _) a =
      (entry, refl, s, inl (refl, refl, refl))
  round_trips-IsOrdered costs ((ts, price, true) ∷ rest) (flat cash) t u s (a, as') =
      let purchase = execute_buy n cash price costs in
      round_trips-IsOrdered costs rest (bought n cash ts price purchase) t ts
        (Since-bought cash ts price t u s a purchase) as'
  round_trips-IsOrdered costs ((ts, price, false) ∷ rest) (flat cash) t u s (a, as') =
      round_trips-IsOrdered costs rest (flat cash) t ts (omega arith) as'
  round_trips-IsOrdered costs ((ts, now, true) ∷ rest) (long spent quantity fee entry price) t u s
        (a, as') =
      round_trips-IsOrdered costs rest (long spent quantity fee entry price) t ts
        (s.0, omega (arith, s.1)) as'
  round_trips-IsOrdered costs ((ts, now, false) ∷ rest) (long spent quantity fee entry price) t u s
        (a, as') =
      let cash = (execute_sell n quantity now costs).0 in
      let later = round_trips-IsOrdered costs rest (flat cash) ts ts (omega arith) as' in
      (entry, refl, s.0, inr (ts, refl, (λ d. cc), omega (arith, s.1), later))

  -- With a position that starts at 0 and is 0 or 1 at each later minute of a known price, and with
  -- times that ascend, the trades that `simulate` returns come one after another: each is entered after
  -- the one before was left, is left later than it was entered, and has a pnl, but for the last one,
  -- which may be open and then has none.
  pub simulate-IsOrdered :
      (costs : Costs n) (prepared : PreparedData n) (capital : n.D) (row : Row n)
      (rows : List (Row n)) (first : ℕ) (ticks : List (Tick n)) (r : SimulationResult n)
      → prepared.df ≡ row ∷ rows
      → IsPriced n costs prepared.prices ticks
      → IsAscending first ticks
      → simulate n ((first, 0) ∷ map (position_of n) ticks) prepared capital costs ≡ ok r
      → IsOrdered first r.trades
  simulate-IsOrdered costs prepared capital row rows first ticks r e h a ran =
      let (trades, _) =
        simulate-round_trips n costs prepared capital row rows first ticks r e h ran in
      let ordered = round_trips-IsOrdered costs ticks (flat capital) first first (omega arith) a in
      subst (IsOrdered first) (sym trades) ordered
