-- ===== src/Backtest/Command.antt =====
-- src/crypto_pipeline/backtest/__main__.py: the command that runs a backtest or a sweep for each of its
-- symbols, `symbol.upper()` being a parameter.
use crypto_market_data_pipel.Prelude.{
  ℕ, ◌≡◌, ◌≢◌, ◌<◌, ◌↔◌, refl, sym, ap, ◌∙◌, Bool, true, false, List, [], ◌∷◌, ◌++◌, String, All,
  map, arith, if◌then◌else◌,
}
use mathlib.Core.List.{append-nil, append_assoc}
use crypto_market_data_pipel.Common.Errors.{Error, Result, ok, err, value_error, database_error}
use crypto_market_data_pipel.Common.Candle.{Candle, minute}
use crypto_market_data_pipel.Common.Json.{Codec}
use crypto_market_data_pipel.Backfill.Command
use crypto_market_data_pipel.Backfill.Command.{label, resolve_range, resolve_range-lt}
use crypto_market_data_pipel.Writer.Table.{read_candles}
use crypto_market_data_pipel.Backtest.Numbers.{Numbers}
use crypto_market_data_pipel.Backtest.Runner.{Settings, run_backtest_metrics}
use crypto_market_data_pipel.Backtest.Sweep.{default_grid, run_sweep}
use crypto_market_data_pipel.Backtest.Report.{Formats, format_metrics, format_sweep}

module _ (n : Numbers) (f : Formats n) where
  -- The arguments but for the range.
  pub record Options : Type 0 where
    pub initial_capital : n.D
    pub fast : ℕ
    pub slow : ℕ
    pub fee_rate : n.D
    pub slippage : n.D
    pub allow_gaps : Bool
    pub sweep : Bool
    pub sweep_ratio : n.F

  -- What comes of a symbol: a text, no candles, or an exception.
  pub data Outcome : Type 0 where
    printed : String → Outcome
    no_candles : Outcome
    failed : Error → Outcome

  abbrev pub settings_of : Options → Settings n
  settings_of o = record {
    interval = minute;
    initial_capital = o.initial_capital;
    costs = record { fee_rate = o.fee_rate; slippage = o.slippage };
    allow_gaps = o.allow_gaps;
  }

  abbrev pub format_result : {A : Type 0} → (A → String) → Result A → Outcome
  format_result format (ok a) = printed (format a)
  format_result format (err e) = failed e

  abbrev pub on_read : Options → List (Candle n.D) → Outcome
  on_read o [] = no_candles
  on_read o (c ∷ cs) =
      let swept = run_sweep n (c ∷ cs) (settings_of o) default_grid o.sweep_ratio in
      let run = run_backtest_metrics n (c ∷ cs) (settings_of o) o.fast o.slow in
      if o.sweep
      then format_result (format_sweep n f) swept
      else format_result (λ m. format_metrics n f m o.fast o.slow) run

  -- The body of the loop; the Boolean says whether the database can be read.
  unfoldable pub outcome_of : List (Candle n.D) → Options → ℕ → ℕ → String × Bool → Outcome
  outcome_of table o start end (symbol, true) = on_read o (read_candles table symbol start end)
  outcome_of table o start end (symbol, false) = failed database_error

  -- `failures` and `formatted_metrics_list`
  pub record Report : Type 0 where
    pub failures : List (String × Error)
    pub formatted : List String

  abbrev pub note : String → Outcome → Report → Report
  note symbol (printed text) r = record r { formatted = r.formatted ++ (text ∷ []) }
  note symbol no_candles r = r
  note symbol (failed e) r = record r { failures = r.failures ++ ((symbol, e) ∷ []) }

  unfoldable pub backtest_all :
      List (Candle n.D) → Options → ℕ → ℕ → List (String × Bool) → Report → Report
  backtest_all table o start end [] r = r
  backtest_all table o start end ((symbol, readable) ∷ rest) r =
      backtest_all table o start end rest
        (note symbol (outcome_of table o start end (symbol, readable)) r)

  -- `return 1 if failures else 0`
  abbrev pub exit_code : List (String × Error) → ℕ
  exit_code [] = 0
  exit_code (x ∷ xs) = 1

  -- The exit code and what was printed. A range that is not valid is 2; other exceptions go up.
  abbrev pub finish : Report → ℕ × List String
  finish r = (exit_code r.failures, r.formatted)

  abbrev pub on_range :
      List (Candle n.D) → Options → List (String × Bool) → Result (ℕ × ℕ) → Result (ℕ × List String)
  on_range table o symbols (ok (start, end)) =
      ok
        (finish (backtest_all table o start end symbols (record { failures = []; formatted = [] })))
  on_range table o symbols (err value_error) = ok (2, [])
  on_range table o symbols (err e) = err e

  -- The function from ℕ says whether the database can be read for each symbol.
  unfoldable pub main :
      (c : Codec)
      → (String → String)
      → List (Candle n.D)
      → Options
      → ℕ
      → Command.Args
      → (ℕ → Bool)
      → Result (ℕ × List String)
  main c upper table o now args readable =
      on_range table o (label readable (map upper args.symbol)) (resolve_range c now args)

  -- The texts and the failures of some outcomes.
  abbrev pub text_of : Outcome → List String
  text_of (printed text) = text ∷ []
  text_of no_candles = []
  text_of (failed e) = []

  abbrev pub error_of : String → Outcome → List (String × Error)
  error_of symbol (printed text) = []
  error_of symbol no_candles = []
  error_of symbol (failed e) = (symbol, e) ∷ []

  abbrev pub texts : (String × Bool → Outcome) → List (String × Bool) → List String
  texts out [] = []
  texts out (x ∷ xs) = text_of (out x) ++ texts out xs

  abbrev pub errors : (String × Bool → Outcome) → List (String × Bool) → List (String × Error)
  errors out [] = []
  errors out (x ∷ xs) = error_of (x.0) (out x) ++ errors out xs

  note_lem :
      (symbol : String) (x : Outcome) (r : Report)
      → ((note symbol x r).formatted ≡ r.formatted ++ text_of x)
        × ((note symbol x r).failures ≡ r.failures ++ error_of symbol x)
  note_lem symbol (printed text) r = (refl, sym (append-nil r.failures))
  note_lem symbol no_candles r = (sym (append-nil r.formatted), sym (append-nil r.failures))
  note_lem symbol (failed e) r = (sym (append-nil r.formatted), refl)

  backtest_all-outcomes :
      (table : List (Candle n.D)) (o : Options) (start end : ℕ) (symbols : List (String × Bool))
      (r : Report)
      → let out = outcome_of table o start end in
        let after = backtest_all table o start end symbols r in
        (after.formatted ≡ r.formatted ++ texts out symbols)
        × (after.failures ≡ r.failures ++ errors out symbols)
  unfolding backtest_all
  backtest_all-outcomes table o start end [] r =
      (sym (append-nil r.formatted), sym (append-nil r.failures))
  backtest_all-outcomes table o start end ((symbol, readable) ∷ rest) r =
      let x = outcome_of table o start end (symbol, readable) in
      let (noted, failed') = note_lem symbol x r in
      let (texts', errors') = backtest_all-outcomes table o start end rest (note symbol x r) in
      (
        texts'
            ∙ ap (λ l. l ++ texts (outcome_of table o start end) rest) noted
            ∙ append_assoc r.formatted (text_of x) _,
        errors'
            ∙ ap (λ l. l ++ errors (outcome_of table o start end) rest) failed'
            ∙ append_assoc r.failures (error_of symbol x) _,
      )

  none_failed :
      (symbol : String) (x : Outcome) (es : List (String × Error))
      → exit_code (error_of symbol x ++ es) ≡ 0
      → ((e : Error) → x ≢ failed e) × (exit_code es ≡ 0)
  none_failed symbol (printed text) es h = ((λ e q. cc), h)
  none_failed symbol no_candles es h = ((λ e q. cc), h)
  none_failed symbol (failed e) es h = absurd (omega arith)

  exit_code-error_of :
      (symbol : String) (x : Outcome) (es : List (String × Error))
      → ((e : Error) → x ≢ failed e)
      → exit_code es ≡ 0
      → exit_code (error_of symbol x ++ es) ≡ 0
  exit_code-error_of symbol (printed text) es ok' h = h
  exit_code-error_of symbol no_candles es ok' h = h
  exit_code-error_of symbol (failed e) es ok' h = absurd (ok' e refl)

  exit_code-zero :
      (out : String × Bool → Outcome) (symbols : List (String × Bool))
      → exit_code (errors out symbols) ≡ 0 ↔ All (λ x. (e : Error) → out x ≢ failed e) symbols
  exit_code-zero out [] = ((λ h. tt), λ h. refl)
  exit_code-zero out (x ∷ xs) =
      let (to, from) = exit_code-zero out xs in
      (
        (λ h. let (x', rest) = none_failed (x.0) (out x) _ h in (x', to rest)),
        λ h. exit_code-error_of (x.0) (out x) _ (h.0) (from h.1),
      )

  -- For a range that resolve_range accepts, which is not empty, main prints the texts of the
  -- symbols of the arguments in their order, leaves out those that are without candles or failed, and returns 0 exactly if no
  -- symbol failed, else 1.
  pub main-outcomes :
      (c : Codec) (upper : String → String) (table : List (Candle n.D)) (o : Options) (now : ℕ)
      (args : Command.Args) (readable : ℕ → Bool) {start end : ℕ}
      → resolve_range c now args ≡ ok (start, end)
      → let out = outcome_of table o start end in
        let symbols = label readable (map upper args.symbol) in
        (start < end)
        × (main c upper table o now args readable
            ≡ ok (exit_code (errors out symbols), texts out symbols))
        × (exit_code (errors out symbols) ≡ 0 ↔ All (λ x. (e : Error) → out x ≢ failed e) symbols)
  unfolding main
  main-outcomes c upper table o now args readable {start} {end} h =
      let out = outcome_of table o start end in
      let symbols = label readable (map upper args.symbol) in
      let after =
        backtest_all table o start end symbols (record { failures = []; formatted = [] }) in
      let (texts', errors') =
        backtest_all-outcomes table o start end symbols
          (record { failures = []; formatted = [] }) in
      (
        resolve_range-lt c now args start end h,
        ap (on_range table o symbols) h
            ∙ ap (λ es. ok (exit_code es, after.formatted)) errors'
            ∙ ap (λ ts. ok (exit_code (errors out symbols), ts)) texts',
        exit_code-zero out symbols,
      )
