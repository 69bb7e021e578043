-- ===== src/Dashboard/Form.antt =====
-- src/crypto_pipeline/dashboard/views/backtest.py: a run of the page, from what its calls return, what
-- the session holds and what stands in the form. The response keeps its numbers, without the rounding
-- of money in JSON.
pub mod Posted
use crypto_market_data_pipel.Prelude.{
  ℕ, ◌-◌, ◌*◌, ◌/◌, Bool, true, false, Option, none, some, List, [], ◌∷◌, ◌++◌, leb, String, str_eq,
  if◌then◌else◌,
}
use crypto_market_data_pipel.Common.Errors.{Error, Result, ok, err, ◌>>=◌, value_error}
use crypto_market_data_pipel.Common.Time.{Stamp}
use crypto_market_data_pipel.Backfill.Command.{day}
use crypto_market_data_pipel.Backtest.Numbers.{Numbers}
use crypto_market_data_pipel.Backtest.Frame.{FrameInfo}
use crypto_market_data_pipel.Backtest.Simulation.{TradeRecord}
use crypto_market_data_pipel.Backtest.Runner.{BacktestMetrics}
use crypto_market_data_pipel.Api.Requests.{BacktestRequest}
use crypto_market_data_pipel.Api.Backtests.{MetricsOut, BacktestResponse}
use crypto_market_data_pipel.Dashboard.Client.{Message, Called, value, api_error, raised}

-- The selection of the market page, which it keeps in the session.
pub record LastSelection : Type 0 where
  pub symbol : String
  pub start : ℕ
  pub end : ℕ

-- What the form offers at first; dates are days since 1970.
pub record Defaults : Type 0 where
  pub symbol : String
  pub start_day : ℕ
  pub end_day : ℕ

abbrev pub default_lookback : ℕ
default_lookback = 7 * day

-- `symbols.index(symbol)` raises ValueError for a symbol that is not there.
abbrev pub check_listed : String → List String → Result (Unit {0})
check_listed symbol [] = err value_error
check_listed symbol (s ∷ ss) = if str_eq s symbol then ok tt else check_listed symbol ss

abbrev pub prefilled : String → ℕ → Option LastSelection → LastSelection
prefilled first now none = record { symbol = first; start = now - default_lookback; end = now }
prefilled first now (some last) = last

-- The defaults for the listed symbols, of which there is a first.
unfoldable pub defaults : String → List String → ℕ → Option LastSelection → Result Defaults
defaults first rest now last = do
  let prefill = prefilled first now last
  listed ← check_listed prefill.symbol (first ∷ rest)
  ok (record {
    symbol = prefill.symbol;
    start_day = prefill.start / day;
    end_day = prefill.end / day;
  })

module _ (n : Numbers) where
  -- What stands in the form; its amounts are the decimals that they stand for.
  pub record Form : Type 0 where
    pub symbol : String
    pub initial_capital : n.D
    pub start_day : ℕ
    pub end_day : ℕ
    pub fast_window : ℕ
    pub slow_window : ℕ
    pub fee_rate : n.D
    pub slippage : n.D
    pub allow_gaps : Bool
    pub show_curve : Bool

  pub record Session : Type 0 where
    pub last_selection : Option LastSelection
    pub backtest_result : Option (BacktestResponse n)

  pub data Piece : Type 0 where
    error_box : Message → Piece
    no_symbols : Piece
    end_before_start : Piece
    windows_box : Piece
    subheader : String → (fast slow : ℕ) → Piece
    figures : (final_equity : n.D) → (total_return buy_and_hold max_drawdown : n.F) → Piece
    counts : (sharpe win_rate : Option n.F) → ℕ → (fees_paid : n.D) → Piece
    caption : FrameInfo → Piece
    underperformed : Piece
    curve : List (ℕ × n.F) → (symbol : String) → Piece
    trades : List (TradeRecord n) → Piece

  -- The page stops or comes to its end with what it shows and the session, or it fails.
  pub data View : Type 0 where
    shown : List Piece → Session → View
    failed : Error → View

  -- `_as_utc(day, time.min)`
  abbrev pub as_utc : ℕ → Stamp
  as_utc d = record { aware = true; micros = d * day }

  abbrev pub request_of : Form → BacktestRequest n
  request_of form = record {
    symbol = form.symbol;
    start = as_utc form.start_day;
    end = as_utc form.end_day;
    initial_capital = form.initial_capital;
    fast_window = form.fast_window;
    slow_window = form.slow_window;
    fee_rate = form.fee_rate;
    slippage = form.slippage;
    allow_gaps = form.allow_gaps;
    include_equity_curve = form.show_curve;
  }

  -- `if curve: …`
  abbrev pub curve_of : Option (List (ℕ × n.F)) → String → List Piece
  curve_of none symbol = []
  curve_of (some []) symbol = []
  curve_of (some (p ∷ ps)) symbol = curve (p ∷ ps) symbol ∷ []

  abbrev pub result_pieces : Form → BacktestResponse n → List Piece
  result_pieces form result =
      let metrics = result.metrics.metrics in
      (subheader metrics.frame_info.symbol result.metrics.fast_window result.metrics.slow_window
        ∷ figures metrics.final_equity metrics.total_return metrics.buy_and_hold_total_return
            result.metrics.max_drawdown
        ∷ counts metrics.sharpe metrics.win_rate metrics.trade_count metrics.fees_paid
        ∷ caption metrics.frame_info
        ∷ [])
      ++ ((if n.ltb_f metrics.total_return metrics.buy_and_hold_total_return
            then underperformed ∷ []
            else [])
          ++ (curve_of result.equity_curve form.symbol ++ (trades result.trades ∷ [])))

  -- `result = st.session_state.get(RESULT_KEY)` and what follows.
  abbrev pub result_of : Form → Option (BacktestResponse n) → List Piece
  result_of form none = []
  result_of form (some result) = result_pieces form result

  abbrev pub on_post : Form → Session → Called (BacktestResponse n) → View
  on_post form session (value r) =
      shown (result_pieces form r) (record session { backtest_result = some r })
  on_post form session (api_error m) =
      shown (error_box m ∷ []) (record session { backtest_result = none })
  on_post form session (raised e) = failed e

  -- `if submitted: …`
  abbrev pub on_submit :
      (BacktestRequest n → Called (BacktestResponse n)) → Form → Session → Bool → View
  on_submit post form session false = shown (result_of form session.backtest_result) session
  on_submit post form session true =
      if leb form.end_day form.start_day
      then shown (end_before_start ∷ []) session
      else if leb form.slow_window form.fast_window
      then shown (windows_box ∷ []) session
      else on_post form session (post (request_of form))

  -- The form is filled before it is read.
  abbrev pub on_defaults : Result Defaults → View → View
  on_defaults (ok d) rest = rest
  on_defaults (err e) rest = failed e

  unfoldable pub backtest_page :
      Called (List String)
      → (BacktestRequest n → Called (BacktestResponse n))
      → ℕ
      → Session
      → Form
      → Bool
      → View
  backtest_page (api_error m) post now session form submitted = shown (error_box m ∷ []) session
  backtest_page (raised e) post now session form submitted = failed e
  backtest_page (value []) post now session form submitted = shown (no_symbols ∷ []) session
  backtest_page (value (s ∷ ss)) post now session form submitted =
      on_defaults (defaults s ss now session.last_selection) (on_submit post form session submitted)
