-- ===== src/Dashboard/Market.antt =====
-- src/crypto_pipeline/dashboard/views/market.py: what the page shows, from what its calls return. A
-- `@st.cache_data` call that is made twice in a run returns the same.
pub mod Served
use crypto_market_data_pipel.Prelude.{
  ℕ, ◌-◌, ◌*◌, ◌/◌, ◌==◌, Bool, true, false, List, [], ◌∷◌, ◌++◌, map, length, String,
  if◌then◌else◌,
}
use crypto_market_data_pipel.Common.Errors.{Error, Result, ok, err}
use crypto_market_data_pipel.Common.Candle.{Candle, minute}
use crypto_market_data_pipel.Api.Queries.{Interval, one_minute, one_hour}
use crypto_market_data_pipel.Api.Routes.{CoverageOut, CandlesResponse, delta}
use crypto_market_data_pipel.Dashboard.Charts.{Span, gap_spans}
use crypto_market_data_pipel.Dashboard.Client.{Message, Called, value, api_error, raised}

abbrev pub max_candles : ℕ
max_candles = 10_000

-- A preset is its length; `now` is a whole minute.
pub record Selection : Type 0 where
  pub symbol : String
  pub interval : Interval
  pub lookback : ℕ

-- What the page shows, in order. `complete` is the share in tenths of a per cent, rounded down here.
pub data Element (D : Type 0) : Type 0 where
  error_box : Message → Element D
  no_symbols : Element D
  no_candles : Element D
  chart : List (Candle D) → List Span → Element D
  shown : ℕ → Element D
  complete : ℕ → Element D
  missing : ℕ → Element D
  truncated_warning : Element D
  missing_warning : ℕ → Element D

-- The page stops, or it comes to its end and remembers the selection with its range, or it fails.
pub data Page (D : Type 0) : Type 0 where
  stopped : List (Element D) → Page D
  finished : List (Element D) → Selection → (start end : ℕ) → Page D
  broken : Error → Page D

module _ {D : Type 0} where
  -- `if truncated: … elif missing: …`
  abbrev pub warnings : Bool → ℕ → List (Element D)
  warnings truncated n =
      if truncated then truncated_warning ∷ [] else if n == 0 then [] else missing_warning n ∷ []

  -- The column of the coverage. The division is by the expected candles, which are one at least;
  -- where more are returned than expected, the missing are 0 here.
  abbrev pub metrics : CandlesResponse D → CoverageOut → List (Element D)
  metrics page raw =
      let absent = raw.expected - raw.returned in
      (shown (length page.candles)
        ∷ complete (1000 * raw.returned / raw.expected)
        ∷ missing absent
        ∷ [])
      ++ warnings page.coverage.truncated absent

  abbrev pub with_coverage :
      Selection → ℕ → ℕ → List Span → CandlesResponse D → Called CoverageOut → Page D
  with_coverage sel start end spans page (value raw) =
      finished (chart page.candles spans ∷ metrics page raw) sel start end
  with_coverage sel start end spans page (api_error m) =
      stopped (chart page.candles spans ∷ error_box m ∷ [])
  with_coverage sel start end spans page (raised e) = broken e

  abbrev pub with_chart :
      Selection → ℕ → ℕ → CandlesResponse D → Called CoverageOut → Result (List Span) → Page D
  with_chart sel start end page coverage (err e) = broken e
  with_chart sel start end page coverage (ok spans) =
      with_coverage sel start end spans page coverage

  abbrev pub has_none : List (Candle D) → Bool
  has_none [] = true
  has_none (c ∷ cs) = false

  abbrev pub with_candles :
      Selection → ℕ → ℕ → Called CoverageOut → Called (CandlesResponse D) → Page D
  with_candles sel start end coverage (value page) =
      let spans = gap_spans (map (λ c. c.ts) page.candles) start end (delta sel.interval) in
      let drawn = with_chart sel start end page coverage spans in
      if has_none page.candles then stopped (no_candles ∷ []) else drawn
  with_candles sel start end coverage (api_error m) = stopped (error_box m ∷ [])
  with_candles sel start end coverage (raised e) = broken e

  -- The page, with the calls that it makes: `load_symbols`, `load_candles` and `load_coverage`.
  unfoldable pub market_page :
      Called (List String)
      → (String → ℕ → ℕ → Interval → ℕ → Called (CandlesResponse D))
      → (String → ℕ → ℕ → Called CoverageOut)
      → ℕ
      → Selection
      → Page D
  unfolding gap_spans
  market_page (api_error m) candles coverage now sel = stopped (error_box m ∷ no_symbols ∷ [])
  market_page (raised e) candles coverage now sel = broken e
  market_page (value []) candles coverage now sel = stopped (no_symbols ∷ [])
  market_page (value (s ∷ ss)) candles coverage now sel =
      let end = now in
      let start = end - sel.lookback in
      with_candles sel start end (coverage sel.symbol start end)
        (candles sel.symbol start end sel.interval max_candles)
