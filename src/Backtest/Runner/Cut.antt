-- ===== src/Backtest/Runner/Cut.antt =====
-- The trades of a run, cut after the first of its candles.
use crypto_market_data_pipel.Prelude.{
  ℕ, zero, suc, ◌≡◌, ◌<◌, ◌≤◌, refl, sym, ap, ◌∙◌, Bool, true, false, some, List, [], ◌∷◌, ◌++◌,
  map, take, drop, All, arith, last_or, take-append-drop,
}
use mathlib.Core.List.{append_assoc}
use crypto_market_data_pipel.Common.Candle.{Candle}
use crypto_market_data_pipel.Backtest.Numbers.{Numbers}
use crypto_market_data_pipel.Backtest.Frame.Grid.{Ascends}
use crypto_market_data_pipel.Backtest.Simulation.{TradeRecord, Costs, execute_buy, execute_sell}
use crypto_market_data_pipel.Backtest.Simulation.Trades.{
  Tick, Stance, flat, long, bought, round_trip, round_trips, pending,
}
use crypto_market_data_pipel.Backtest.Simulation.Order.{IsAscending}
use crypto_market_data_pipel.Backtest.Runner.Trades.{ticks_of, ticks_of-IsAscending}

module _ (n : Numbers) where
  -- A trade that is closed, if at all, after a time.
  abbrev pub ClosesAfter : ℕ → TradeRecord n → Type 0
  ClosesAfter t trade = (exit : ℕ) → trade.exit_ts ≡ some exit → t < exit

  round_trips-append :
      (costs : Costs n) (s : Stance n) (xs ys : List (Tick n))
      → (round_trips n costs s (xs ++ ys)).0
          ≡ (round_trips n costs s xs).0 ++ (round_trips n costs (round_trips n costs s xs).1 ys).0
        × ((round_trips n costs s (xs ++ ys)).1
            ≡ (round_trips n costs (round_trips n costs s xs).1 ys).1)
  round_trips-append costs s [] ys = (refl, refl)
  round_trips-append costs (flat cash) ((ts, price, true) ∷ xs) ys =
      round_trips-append costs (bought n cash ts price (execute_buy n cash price costs)) xs ys
  round_trips-append costs (flat cash) ((ts, price, false) ∷ xs) ys =
      round_trips-append costs (flat cash) xs ys
  round_trips-append costs (long spent quantity fee ts price) ((t, now, true) ∷ xs) ys =
      round_trips-append costs (long spent quantity fee ts price) xs ys
  round_trips-append costs (long spent quantity fee ts price) ((t, now, false) ∷ xs) ys =
      let sale = execute_sell n quantity now costs in
      let (trades, after) = round_trips-append costs (flat sale.0) xs ys in
      (ap (λ l. round_trip n spent fee ts price t now sale ∷ l) trades, after)

  pub round_trips-ClosesAfter :
      (costs : Costs n) (s : Stance n) (t : ℕ) (ticks : List (Tick n))
      → All (λ x. t < x.0) ticks
      → All
          (ClosesAfter t)
          ((round_trips n costs s ticks).0 ++ pending n (round_trips n costs s ticks).1)
  round_trips-ClosesAfter costs (flat cash) t [] h = tt
  round_trips-ClosesAfter costs (long spent quantity fee ts price) t [] h = ((λ exit e. cc), tt)
  round_trips-ClosesAfter costs (flat cash) t ((ts, price, true) ∷ rest) (h, hs) =
      round_trips-ClosesAfter costs (bought n cash ts price (execute_buy n cash price costs)) t rest
        hs
  round_trips-ClosesAfter costs (flat cash) t ((ts, price, false) ∷ rest) (h, hs) =
      round_trips-ClosesAfter costs (flat cash) t rest hs
  round_trips-ClosesAfter costs (long spent quantity fee ts price) t ((u, now, true) ∷ rest)
        (h, hs) =
      round_trips-ClosesAfter costs (long spent quantity fee ts price) t rest hs
  round_trips-ClosesAfter costs (long spent quantity fee ts price) t ((u, now, false) ∷ rest)
        (h, hs) =
      let sale = execute_sell n quantity now costs in
      ((λ exit e. ground arith), round_trips-ClosesAfter costs (flat sale.0) t rest hs)

  -- The trades of a series, cut after its first minutes.
  pub trades_split :
      (costs : Costs n) (s : Stance n) (k : ℕ) (ticks : List (Tick n))
      → let first = round_trips n costs s (take k ticks) in
        let rest = round_trips n costs first.1 (drop k ticks) in
        let all = round_trips n costs s ticks in
        all.0 ++ pending n all.1 ≡ first.0 ++ (rest.0 ++ pending n rest.1)
  trades_split costs s k ticks =
      let first = round_trips n costs s (take k ticks) in
      let rest = round_trips n costs first.1 (drop k ticks) in
      let (trades, after) = round_trips-append costs s (take k ticks) (drop k ticks) in
      let whole = take-append-drop k ticks in
      ap (λ l. (round_trips n costs s l).0 ++ pending n (round_trips n costs s l).1) (sym whole)
      ∙ ap (λ l. l ++ pending n (round_trips n costs s (take k ticks ++ drop k ticks)).1) trades
      ∙ ap (λ q. (first.0 ++ rest.0) ++ pending n q) after
      ∙ append_assoc first.0 rest.0 (pending n rest.1)

  ascending_above :
      (t u : ℕ) (ticks : List (Tick n)) → t ≤ u → IsAscending n u ticks → All (λ x. t < x.0) ticks
  ascending_above t u [] h a = tt
  ascending_above t u ((ts, price, b) ∷ rest) h (a, as') =
      (omega arith, ascending_above t ts rest (omega arith) as')

  pub later_ticks :
      (k : ℕ) (first : Candle n.D) (rest : List (Candle n.D)) (held : List (ℕ × Bool))
      → Ascends first.ts (map (λ c. c.ts) rest)
      → All (λ x. (last_or first (take k rest)).ts < x.0) (drop k (ticks_of n rest held))
  later_ticks zero first rest held a =
      ascending_above first.ts first.ts (ticks_of n rest held) (omega arith)
        (ticks_of-IsAscending n first.ts rest held a)
  later_ticks (suc k) first [] held a = tt
  later_ticks (suc k) first (c ∷ cs) [] a = tt
  later_ticks (suc k) first (c ∷ cs) ((t, b) ∷ held) (a, as') = later_ticks k c cs held as'
