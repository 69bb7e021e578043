-- ===== src/Dashboard/Calls.antt =====
-- src/crypto_pipeline/dashboard/api_client.py: what each call sends. A path is given by its last part.
pub mod Served
use crypto_market_data_pipel.Prelude.{ℕ, String, List, [], ◌∷◌}
use crypto_market_data_pipel.Common.Dict.{Dict}
use crypto_market_data_pipel.Common.Json.{Json, bool, num, text, obj, done, field}
use crypto_market_data_pipel.Common.Time.{Stamp}
use crypto_market_data_pipel.Backtest.Numbers.{Numbers}
use crypto_market_data_pipel.Api.Requests.{BacktestRequest}

-- `isoformat()`, and `str` of an `int`, which httpx writes into the query, and of a Decimal.
pub record Writers (n : Numbers) : Type 0 where
  pub isoformat : Stamp → String
  pub str_int : ℕ → String
  pub str : n.D → String

module _ (n : Numbers) (writers : Writers n) where
  open writers use {isoformat, str_int, str}

  -- The path and the query of `get_candles`.
  abbrev pub candles_call : String → Stamp → Stamp → String → ℕ → String × Dict String
  candles_call symbol start end interval limit = (
    symbol,
    ("start", isoformat start)
        ∷ ("end", isoformat end)
        ∷ ("interval", interval)
        ∷ ("limit", str_int limit)
        ∷ [],
  )

  -- Those of `get_coverage`.
  abbrev pub coverage_call : String → Stamp → Stamp → String × Dict String
  coverage_call symbol start end =
      (symbol, ("start", isoformat start) ∷ ("end", isoformat end) ∷ [])

  -- The body of `post_backtest`, whose arguments are the fields of the request.
  abbrev pub backtest_body : BacktestRequest n → Json
  backtest_body r = obj (
      field "symbol" (text r.symbol) (
        field "start" (text (isoformat r.start)) (
          field "end" (text (isoformat r.end)) (
            field "initial_capital" (text (str r.initial_capital)) (
              field "fast_window" (num r.fast_window) (
                field "slow_window" (num r.slow_window) (
                  field "fee_rate" (text (str r.fee_rate)) (
                    field "slippage" (text (str r.slippage)) (
                      field "allow_gaps" (bool r.allow_gaps)
                        (field "include_equity_curve" (bool r.include_equity_curve) done))))))))))
