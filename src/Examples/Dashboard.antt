-- ===== src/Examples/Dashboard.antt =====
-- Instances for src/crypto_pipeline/dashboard.
use crypto_market_data_pipel.Prelude.{
  ℕ, ◌-◌, ◌*◌, ◌≡◌, ◌≤◌, ◌<◌, ◌⊎◌, refl, true, none, some, List, [], ◌∷◌, String, All, arith,
}
use crypto_market_data_pipel.Common.Errors.{ok, err, value_error}
use crypto_market_data_pipel.Common.Candle.{minute}
use crypto_market_data_pipel.Api.Queries.{one_minute}
use crypto_market_data_pipel.Dashboard.Charts.{
  Span, IsGap, InSome, IsNear, gap_spans, gap_spans_exact,
}
use crypto_market_data_pipel.Dashboard.Market.{Selection}
use crypto_market_data_pipel.Dashboard.Market.Served.{served_page}
use crypto_market_data_pipel.Api.Requests.{max_backtest_candles, validate}
use crypto_market_data_pipel.Api.Backtests.{backtest_endpoint}
use crypto_market_data_pipel.Dashboard.Client.{status_message}
use crypto_market_data_pipel.Dashboard.Form.{
  Form, Session, View, shown, error_box, end_before_start, windows_box, defaults, request_of,
}
use crypto_market_data_pipel.Dashboard.Form.Posted
use crypto_market_data_pipel.Dashboard.Form.Posted.{
  IsInRange, after_answer, backtest_page-backtest_endpoint,
}
use crypto_market_data_pipel.Examples.Backtest.{numbers, ticks_from}

-- Candles at 2, 3 and 7 of the range from 0 to 8: the gaps are from 0 to 2 and from 3 to 7.
gap_spans_test : gap_spans (2 ∷ 3 ∷ 7 ∷ []) 0 8 1 ≡ ok ((0, 2) ∷ (3, 7) ∷ [])
unfolding gap_spans
gap_spans_test = refl

gap_spans_exact_example :
    (spans : List Span) × (gap_spans (2 ∷ 3 ∷ 7 ∷ []) 0 8 1 ≡ ok spans)
    × All (IsGap 1 0 8 (2 ∷ 3 ∷ 7 ∷ 8 ∷ [])) spans
    × ((t : ℕ) → 0 ≤ t → t ≤ 8 → InSome t spans ⊎ IsNear 1 t 0 (2 ∷ 3 ∷ 7 ∷ 8 ∷ []))
gap_spans_exact_example =
    gap_spans_exact 2 (3 ∷ 7 ∷ []) 0 8 1
      (omega arith, (omega arith, (omega arith, (omega arith, tt))))

abbrev status_text : ℕ → String
status_text status = "failed"

abbrev selection : Selection
selection = record { symbol = "BTCUSDT"; interval = one_minute; lookback = 4 * minute }

-- The first two days, with the windows 1 and 2.
abbrev form : Form numbers
form = record {
  symbol = "BTCUSDT";
  initial_capital = 1000;
  start_day = 0;
  end_day = 2;
  fast_window = 1;
  slow_window = 2;
  fee_rate = 0;
  slippage = 0;
  allow_gaps = true;
  show_curve = true;
}

-- The market page has shown the same symbol.
abbrev session : Session numbers
session = record {
  last_selection = some (record { symbol = "BTCUSDT"; start = 0; end = 5 * minute });
  backtest_result = none;
}

abbrev form_page : View numbers
form_page =
    Posted.served_page numbers (ticks_from 8 0) true status_text "ETHUSDT" ("BTCUSDT" ∷ []) minute
      session form

backtest_page-backtest_endpoint_example :
    (IsInRange numbers form
      → (validate numbers (request_of numbers form) ≡ ok tt)
        × (form_page
            ≡ after_answer numbers status_text form session
                (backtest_endpoint numbers (ticks_from 8 0) true (request_of numbers form))))
    × ((2 ≤ 0) ⊎ (2 ≤ 1)
        → (validate numbers (request_of numbers form) ≡ err value_error)
          × ((form_page ≡ shown (end_before_start ∷ []) session)
              ⊎ (form_page ≡ shown (windows_box ∷ []) session)))
    × (0 < 2
        → 1 < 2
        → max_backtest_candles < (2 - 0) * 1440
        → form_page
          ≡ shown
              (error_box (status_message 422 (status_text 422)) ∷ [])
              (record session { backtest_result = none }))
unfolding defaults
backtest_page-backtest_endpoint_example =
    backtest_page-backtest_endpoint numbers (ticks_from 8 0) true status_text "ETHUSDT"
      ("BTCUSDT" ∷ []) minute session form refl (refl, refl, omega arith, refl, refl) (omega arith)
