-- ===== src/Api/Backtests/Responses.antt =====
-- What the answers of the backtest handler tell.
use crypto_market_data_pipel.Prelude.{
  suc, ◌≡◌, ◌≤◌, ◌<◌, ◌↔◌, refl, sym, ap, ◌∙◌, Bool, true, false, Option, none, some, List, [], ◌∷◌,
  length, filterb, arith, All, if◌then◌else◌,
}
use crypto_market_data_pipel.Common.Errors.{Result, ok, err, value_error, gap_error}
use crypto_market_data_pipel.Common.Candle.{Candle}
use crypto_market_data_pipel.Common.Time.{to_utc}
use crypto_market_data_pipel.Writer.Table.Keys.{IsKeyed}
use crypto_market_data_pipel.Backtest.Numbers.{Numbers}
use crypto_market_data_pipel.Backtest.Runner.{BacktestResult, run_backtest}
use crypto_market_data_pipel.Api.Queries.{
  known, list_symbols, in_range, fetch_backtest_candles, count_candles,
}
use crypto_market_data_pipel.Api.Queries.Limits.{length-order_by_ts}
use crypto_market_data_pipel.Api.Queries.Symbols.{
  has_symbol, known-list_symbols, fetch_backtest_candles_unknown,
}
use crypto_market_data_pipel.Api.Routes.{reply, http_exception}
use crypto_market_data_pipel.Api.Routes.Coverage.{IsWhole, count_candles-le}
use crypto_market_data_pipel.Api.App.{respond}
use crypto_market_data_pipel.Api.Requests.{BacktestRequest, validate, span, max_backtest_candles}
use crypto_market_data_pipel.Api.Backtests.{
  BacktestResponse, settings_of, on_result, on_candles, when_valid, post_backtest,
  backtest_endpoint,
}

module _ (n : Numbers) where
  -- What a valid request has passed.
  pub validate-ok :
      (r : BacktestRequest n)
      → validate n r ≡ ok tt
      → (r.start.micros < r.end.micros)
        × (r.fast_window < r.slow_window)
        × (span n r ≤ max_backtest_candles)
  unfolding validate
  validate-ok r h = ground arith

  -- A reply of the handler comes from a run on the candles of the range.
  on_result-reply :
      (request : BacktestRequest n) (result : Result (BacktestResult n)) (r : BacktestResponse n)
      → on_result n request result ≡ ok (reply r)
      → (b : BacktestResult n) × (result ≡ ok b)
        × (r.trades ≡ b.simulation.trades)
        × (r.metrics.metrics ≡ b.metrics)
  on_result-reply request (ok b) r h = split b.metrics.max_drawdown refl
    where
      split :
          (d : Option n.F)
          → b.metrics.max_drawdown ≡ d
          → (c : BacktestResult n) × (ok b ≡ ok c)
            × (r.trades ≡ c.simulation.trades)
            × (r.metrics.metrics ≡ c.metrics)
      split none e = ground arith
      split (some d) e = (b, refl, ground arith, ground arith)
  on_result-reply request (err (gap_error k)) r h = cc
  on_result-reply request (err value_error) r h = cc
  on_result-reply request (err e) r h = ground arith

  endpoint-handled :
      (table : List (Candle n.D)) (in_time : Bool) (request : BacktestRequest n)
      (r : BacktestResponse n)
      → backtest_endpoint n table in_time request ≡ reply r
      → (validate n request ≡ ok tt) × (post_backtest n table in_time request ≡ ok (reply r))
  unfolding backtest_endpoint
  endpoint-handled table in_time request r h = ground arith

  handled-run :
      (table : List (Candle n.D)) (in_time : Bool) (request : BacktestRequest n)
      (candles : List (Candle n.D)) (r : BacktestResponse n)
      → on_candles n table in_time request candles ≡ ok (reply r)
      → (first : Candle n.D) × (rest : List (Candle n.D)) × (candles ≡ first ∷ rest)
        × (on_result n request (
              run_backtest n
                (first ∷ rest)
                (settings_of n request)
                request.fast_window
                request.slow_window)
            ≡ ok (reply r))
  handled-run table in_time request [] r h = ground arith
  handled-run table true request (c ∷ cs) r h = (c, cs, refl, h)
  handled-run table false request (c ∷ cs) r h = cc

  -- On a table of whole minutes without two rows of a key, a backtest that is answered was run on the
  -- candles of the requested range, of which there is one at least and one more than
  -- `max_backtest_candles` at most; the answer has the trades and the metrics of that run, the range is
  -- not empty, and the fast window is shorter than the slow one.
  pub backtest_endpoint-reply :
      (table : List (Candle n.D)) (in_time : Bool) (request : BacktestRequest n)
      (r : BacktestResponse n)
      → IsKeyed table
      → All IsWhole table
      → backtest_endpoint n table in_time request ≡ reply r
      → (first : Candle n.D) × (rest : List (Candle n.D)) × (b : BacktestResult n)
        × (fetch_backtest_candles table request.symbol (to_utc request.start) (to_utc request.end)
            ≡ first ∷ rest)
        × (run_backtest n
              (first ∷ rest)
              (settings_of n request)
              request.fast_window
              request.slow_window
            ≡ ok b)
        × (r.trades ≡ b.simulation.trades)
        × (r.metrics.metrics ≡ b.metrics)
        × (length (first ∷ rest) ≤ suc max_backtest_candles)
        × (to_utc request.start < to_utc request.end)
        × (request.fast_window < request.slow_window)
  unfolding post_backtest fetch_backtest_candles count_candles
  backtest_endpoint-reply table in_time request r k w h =
      let start = to_utc request.start in
      let end = to_utc request.end in
      let (valid, handled) = endpoint-handled table in_time request r h in
      let (forward, windows, size) = validate-ok request valid in
      let few = count_candles-le table request.symbol start end k w (omega arith) in
      let (first, rest, e, replied) = handled-run table in_time request _ r handled in
      let (b, ran, trades, metrics) = on_result-reply request _ r replied in
      let counted =
        ap length (sym e)
        ∙ length-order_by_ts (filterb (in_range request.symbol start end) table) in
      (first, rest, b, e, ran, trades, metrics, (omega arith), forward, windows)

  on_result-ne-404 :
      (request : BacktestRequest n) (result : Result (BacktestResult n))
      → respond (on_result n request result) ≡ http_exception 404
      → ⊥
  on_result-ne-404 request (ok b) h = split b.metrics.max_drawdown refl
    where
      split : (d : Option n.F) → b.metrics.max_drawdown ≡ d → ⊥
      split none e = ground arith
      split (some d) e = ground arith
  on_result-ne-404 request (err (gap_error k)) h = ground arith
  on_result-ne-404 request (err e) h = ground arith

  candles-found :
      (table : List (Candle n.D)) (in_time : Bool) (request : BacktestRequest n)
      (candles : List (Candle n.D))
      → respond (on_candles n table in_time request candles) ≡ http_exception 404
      → known request.symbol (list_symbols table) ≡ false
  candles-found table in_time request [] h = ground arith
  candles-found table false request (c ∷ cs) h = ground arith
  candles-found table true request (c ∷ cs) h = absurd (on_result-ne-404 request _ h)

  -- A valid request for a backtest is answered with 404 exactly if the table has no row of its symbol.
  pub backtest_endpoint_not_found :
      (table : List (Candle n.D)) (in_time : Bool) (request : BacktestRequest n)
      → validate n request ≡ ok tt
      → (backtest_endpoint n table in_time request ≡ http_exception 404)
        ↔ (has_symbol request.symbol table ≡ false)
  unfolding backtest_endpoint post_backtest
  backtest_endpoint_not_found table in_time request valid =
      let start = to_utc request.start in
      let end = to_utc request.end in
      let candles = fetch_backtest_candles table request.symbol start end in
      let handled =
        ap (λ v. respond (when_valid n v (on_candles n table in_time request candles))) valid in
      let knows = known-list_symbols request.symbol table in
      (
        (λ h. sym knows ∙ candles-found table in_time request candles (sym handled ∙ h)),
        (λ h.
            let empty = fetch_backtest_candles_unknown request.symbol start end table h in
            let unknown = knows ∙ h in
            handled
            ∙ ap (λ l. respond (on_candles n table in_time request l)) empty
            ∙ ap (λ b. respond (if b then ok (http_exception 422) else ok (http_exception 404)))
                unknown),
      )
