-- ===== src/Backtest/Report.antt =====
-- src/crypto_pipeline/backtest/__main__.py: the texts that the command prints.
use Prim.Native.String.{◌++◌ as str_append}
use crypto_market_data_pipel.Prelude.{
  ℕ, ◌==◌, ◌&&◌, Option, none, some, List, [], ◌∷◌, ◌++◌, map, String, if◌then◌else◌,
}
use crypto_market_data_pipel.Backtest.Numbers.{Numbers}
use crypto_market_data_pipel.Backtest.Runner.{BacktestMetrics}
use crypto_market_data_pipel.Backtest.Sweep.{Entry, SweepResult}

-- Python's formats: `f"{value.quantize(Decimal('0.01')):,}"`, `f"{value * 100:+.2f}"`, `f"{value:.2f}"`,
-- `:,` and `str` of an integer, `:%Y-%m-%d %H:%M`, `resolution_string`, and the paddings `:<k` and `:>k`.
-- They are taken not to raise, as `quantize` does for an amount of more digits than the context has.
pub record Formats (n : Numbers) : Type 0 where
  pub money : n.D → String
  pub percent : n.F → String
  pub two_places : n.F → String
  pub commas : ℕ → String
  pub digits : ℕ → String
  pub minute_text : ℕ → String
  pub resolution : ℕ → String
  pub pad_right : ℕ → String → String
  pub pad_left : ℕ → String → String
  pub dashes : ℕ → String

-- The pieces of a text, one after the other.
abbrev pub join : List String → String
join [] = ""
join (s ∷ ss) = str_append s (join ss)

-- `"\n".join(lines)`
abbrev pub join_lines : List String → String
join_lines [] = ""
join_lines (l ∷ []) = l
join_lines (l ∷ m ∷ ls) = join (l ∷ "\n" ∷ join_lines (m ∷ ls) ∷ [])

module _ (n : Numbers) (f : Formats n) where
  abbrev pub fmt_pct : Option n.F → String
  fmt_pct none = "n/a"
  fmt_pct (some value) = join (f.percent value ∷ "%" ∷ [])

  abbrev pub fmt_ratio : Option n.F → String
  fmt_ratio none = "n/a"
  fmt_ratio (some value) = f.two_places value

  -- A label and its cells, as in `f"  {label:<22}{a:>16}{b:>16}"`.
  abbrev pub cells : List String → String
  cells [] = ""
  cells (c ∷ cs) = join (f.pad_left 16 c ∷ cells cs ∷ [])

  abbrev pub row : String → List String → String
  row label cs = join ("  " ∷ f.pad_right 22 label ∷ cells cs ∷ [])

  abbrev pub verdict : BacktestMetrics n → String
  verdict m =
      if n.ltb_d m.buy_and_hold_final_equity m.final_equity
      then "strategy beat buy-and-hold"
      else "buy-and-hold won"

  unfoldable pub format_metrics : BacktestMetrics n → ℕ → ℕ → String
  format_metrics m fast slow =
      let info = m.frame_info in
      let strategy_pnl = n.sub m.final_equity m.initial_capital in
      let bh_pnl = n.sub m.buy_and_hold_final_equity m.initial_capital in
      join_lines (
        ""
        ∷ join (
            "  "
            ∷ info.symbol
            ∷ "  ·  SMA "
            ∷ f.digits fast
            ∷ "/"
            ∷ f.digits slow
            ∷ "  ·  "
            ∷ f.resolution info.interval
            ∷ " candles"
            ∷ [])
        ∷ join (
            "  "
            ∷ f.minute_text info.start_ts
            ∷ " → "
            ∷ f.minute_text info.end_ts
            ∷ " UTC"
            ∷ "   ("
            ∷ f.commas info.candle_count
            ∷ " candles, "
            ∷ f.digits info.gap_count
            ∷ " gaps)"
            ∷ [])
        ∷ ""
        ∷ row "" ("STRATEGY" ∷ "BUY & HOLD" ∷ [])
        ∷ join ("  " ∷ f.dashes 54 ∷ [])
        ∷ row "final equity" (f.money m.final_equity ∷ f.money m.buy_and_hold_final_equity ∷ [])
        ∷ row "profit / loss" (f.money strategy_pnl ∷ f.money bh_pnl ∷ [])
        ∷ row "total return"
            (fmt_pct (some m.total_return) ∷ fmt_pct (some m.buy_and_hold_total_return) ∷ [])
        ∷ ""
        ∷ row "trades" (f.commas m.trade_count ∷ [])
        ∷ row "win rate" (fmt_pct m.win_rate ∷ [])
        ∷ row "fees paid" (f.money m.fees_paid ∷ [])
        ∷ row "max drawdown" (fmt_pct m.max_drawdown ∷ [])
        ∷ row "sharpe (annualized)" (fmt_ratio m.sharpe ∷ [])
        ∷ ""
        ∷ join ("  starting capital " ∷ f.money m.initial_capital ∷ "  ·  " ∷ verdict m ∷ [])
        ∷ ""
        ∷ [])

  -- The mark of the chosen windows.
  abbrev pub marker : SweepResult n → Entry n → String
  marker result r =
      if r.fast_window == result.fast_window && r.slow_window == result.slow_window
      then " *"
      else "  "

  abbrev pub sweep_row : SweepResult n → Entry n → String
  sweep_row result r =
      let m = r.metrics in
      join (
        "  "
        ∷ f.pad_right 16 (join (f.digits r.fast_window ∷ "/" ∷ f.digits r.slow_window ∷ []))
        ∷ f.pad_left 12 (fmt_pct (some m.total_return))
        ∷ f.pad_left 10 (fmt_ratio m.sharpe)
        ∷ f.pad_left 9 (f.commas m.trade_count)
        ∷ f.pad_left 10 (fmt_pct m.max_drawdown)
        ∷ marker result r
        ∷ [])

  unfoldable pub format_sweep : SweepResult n → String
  format_sweep result =
      let is_m = result.in_sample in
      let oos_m = result.out_of_sample in
      join_lines (
        (""
          ∷ "  IN-SAMPLE SWEEP (parameters tuned here)"
          ∷ join (
              "  "
              ∷ f.pad_right 16 "fast/slow"
              ∷ f.pad_left 12 "return"
              ∷ f.pad_left 10 "sharpe"
              ∷ f.pad_left 9 "trades"
              ∷ f.pad_left 10 "max dd"
              ∷ [])
          ∷ join ("  " ∷ f.dashes 57 ∷ [])
          ∷ map (sweep_row result) result.ranked_in_sample)
        ++ (""
            ∷ join (
                "  SELECTED: SMA "
                ∷ f.digits result.fast_window
                ∷ "/"
                ∷ f.digits result.slow_window
                ∷ "  (best in-sample Sharpe)"
                ∷ [])
            ∷ ""
            ∷ row "" ("IN-SAMPLE" ∷ "OUT-OF-SAMPLE" ∷ [])
            ∷ join ("  " ∷ f.dashes 54 ∷ [])
            ∷ row "total return"
                (fmt_pct (some is_m.total_return) ∷ fmt_pct (some oos_m.total_return) ∷ [])
            ∷ row "buy & hold return" (
                fmt_pct (some is_m.buy_and_hold_total_return)
                ∷ fmt_pct (some oos_m.buy_and_hold_total_return)
                ∷ [])
            ∷ row "sharpe" (fmt_ratio is_m.sharpe ∷ fmt_ratio oos_m.sharpe ∷ [])
            ∷ row "max drawdown" (fmt_pct is_m.max_drawdown ∷ fmt_pct oos_m.max_drawdown ∷ [])
            ∷ row "trades" (f.commas is_m.trade_count ∷ f.commas oos_m.trade_count ∷ [])
            ∷ row "win rate" (fmt_pct is_m.win_rate ∷ fmt_pct oos_m.win_rate ∷ [])
            ∷ row "fees paid" (f.money is_m.fees_paid ∷ f.money oos_m.fees_paid ∷ [])
            ∷ ""
            ∷ join (
                "  "
                ∷ f.commas is_m.frame_info.candle_count
                ∷ " candles in-sample"
                ∷ "  ·  "
                ∷ f.commas oos_m.frame_info.candle_count
                ∷ " out-of-sample"
                ∷ [])
            ∷ ""
            ∷ []))
