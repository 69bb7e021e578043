-- ===== src/Dashboard/Market/Served.antt =====
-- The page over the handlers of the API.
use crypto_market_data_pipel.Prelude.{ℕ, ◌-◌, ◌≡◌, Bool, List, [], ◌∷◌, ◌++◌, length, String}
use crypto_market_data_pipel.Common.Candle.{Candle}
use crypto_market_data_pipel.Api.Routes.{get_candles, get_coverage}
use crypto_market_data_pipel.Dashboard.Charts.{Span}
use crypto_market_data_pipel.Dashboard.Client.{value, call, deliver}
use crypto_market_data_pipel.Dashboard.Market.{
  Selection, chart, shown, complete, missing, Page, finished, warnings, market_page,
}

module _ {D : Type 0} (by_hours : List (Candle D) → String → ℕ → ℕ → List (Candle D))
    (table : List (Candle D)) (texts : ℕ → String) where
  -- The page, with calls that reach the API's handlers.
  abbrev pub served_page : List String → ℕ → Selection → Page D
  served_page symbols now sel =
      market_page (value symbols)
        (λ symbol start end interval limit.
          call (deliver texts (get_candles by_hours table symbol start end limit interval)))
        (λ symbol start end. call (deliver texts (get_coverage table symbol start end))) now sel

  -- What the page shows of a range with candles: the chart, then the figures of the coverage.
  abbrev pub Shows : Selection → ℕ → List (Candle D) → ℕ → ℕ → Bool → Page D → Type 0
  Shows sel now candles c m truncated page =
      (spans : List Span) × (page
        ≡ finished
            (chart candles spans
              ∷ ((shown (length candles) ∷ complete c ∷ missing m ∷ []) ++ warnings truncated m))
            sel (now - sel.lookback) now)
