-- ===== src/Backtest/Simulation/Returns.antt =====
-- When `simulate` returns: no position is at a minute without a price, and no purchase raises.
use crypto_market_data_pipel.Prelude.{◌≡◌, true, false, List, [], ◌∷◌}
use crypto_market_data_pipel.Common.Errors.{ok}
use crypto_market_data_pipel.Backtest.Numbers.{Numbers}
use crypto_market_data_pipel.Backtest.Simulation.{Costs, execute_buy, execute_sell}
use crypto_market_data_pipel.Backtest.Simulation.Trades.{Tick, Stance, flat, long}

module _ (n : Numbers) (costs : Costs n) where
  -- No purchase of the round trips of some minutes raises.
  abbrev pub IsBought : Stance n → List (Tick n) → Type 0
  IsBought stance [] = Unit
  IsBought (flat cash) ((ts, price, true) ∷ rest) =
      (quantity fee : n.D) × (execute_buy n cash price costs ≡ ok (quantity, fee))
      × IsBought (long cash quantity fee ts price) rest
  IsBought (flat cash) ((ts, price, false) ∷ rest) = IsBought (flat cash) rest
  IsBought (long spent quantity fee ts price) ((t, now, true) ∷ rest) =
      IsBought (long spent quantity fee ts price) rest
  IsBought (long spent quantity fee ts price) ((t, now, false) ∷ rest) =
      IsBought (flat (execute_sell n quantity now costs).0) rest
