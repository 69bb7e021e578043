-- ===== src/Api/Requests.antt =====
-- src/crypto_pipeline/api/models.py: the request of a backtest, with the checks that it passes.
use Prim.Native.Char.{code}
use crypto_market_data_pipel.Prelude.{
  ℕ, ◌-◌, ◌/◌, Bool, true, false, not, ◌&&◌, ◌||◌, List, [], ◌∷◌, leb, ltb, String, length,
  if◌then◌else◌,
}
use crypto_market_data_pipel.Common.Errors.{Result, ok, err, ◌>>=◌, value_error}
use crypto_market_data_pipel.Common.Candle.{minute}
use crypto_market_data_pipel.Common.Time.{Stamp, le_stamp}
use crypto_market_data_pipel.Backtest.Numbers.{Numbers}

abbrev pub max_backtest_candles : ℕ
max_backtest_candles = 200_000

-- `SYMBOL_PATTERN`, ^[A-Z0-9]{3,20}$
abbrev pub codes : String → List ℕ
codes String.[] = []
codes (String.◌∷◌ c s) = code c ∷ codes s

abbrev pub is_symbol_char : ℕ → Bool
is_symbol_char c = leb b'A' c && leb c b'Z' || leb b'0' c && leb c b'9'

abbrev pub all_symbol_chars : List ℕ → Bool
all_symbol_chars [] = true
all_symbol_chars (c ∷ cs) = is_symbol_char c && all_symbol_chars cs

abbrev pub matches_symbol : String → Bool
matches_symbol s =
    let cs = codes s in leb 3 (length cs) && leb (length cs) 20 && all_symbol_chars cs

module _ (n : Numbers) where
  -- The interval is always "1m".
  pub record BacktestRequest : Type 0 where
    pub symbol : String
    pub start : Stamp
    pub end : Stamp
    pub initial_capital : n.D
    pub fast_window : ℕ
    pub slow_window : ℕ
    pub fee_rate : n.D
    pub slippage : n.D
    pub allow_gaps : Bool
    pub include_equity_curve : Bool

  -- `Field(ge=0, lt=1)`
  abbrev pub is_rate : n.D → Bool
  is_rate x = not (n.ltb_d x n.zero_d) && n.ltb_d x n.one

  -- The constraints of the fields.
  abbrev pub check_fields : BacktestRequest → Bool
  check_fields r =
      matches_symbol r.symbol
      && n.ltb_d n.zero_d r.initial_capital
      && leb 1 r.fast_window
      && leb 2 r.slow_window
      && is_rate r.fee_rate
      && is_rate r.slippage

  -- `int((self.end - self.start) / delta)`
  abbrev pub span : BacktestRequest → ℕ
  span r = (r.end.micros - r.start.micros) / minute

  abbrev pub check_windows : BacktestRequest → Bool → Result (Unit {0})
  check_windows r true = err value_error
  check_windows r false =
      if leb r.slow_window r.fast_window
      then err value_error
      else if ltb max_backtest_candles (span r)
      then err value_error
      else ok tt

  unfoldable pub check_consistency : BacktestRequest → Result (Unit {0})
  check_consistency r = do backwards ← le_stamp r.end r.start; check_windows r backwards

  -- The request as FastAPI builds it; the model's validator runs on valid fields.
  unfoldable pub validate : BacktestRequest → Result (Unit {0})
  unfolding check_consistency
  validate r = if check_fields r then check_consistency r else err value_error
