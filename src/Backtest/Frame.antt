-- ===== src/Backtest/Frame.antt =====
-- src/crypto_pipeline/backtest/frame.py: the checks that candles pass before a backtest.
pub mod Grid
use crypto_market_data_pipel.Prelude.{
  ℕ, zero, suc, ◌+◌, ◌-◌, Bool, true, false, not, ◌&&◌, ◌||◌, List, [], ◌∷◌, ◌==◌, leb, String,
  str_eq, length, last_or, map, if◌then◌else◌,
}
use crypto_market_data_pipel.Common.Errors.{
  Result, ok, err, ◌>>=◌, value_error, gap_error, key_error,
}
use crypto_market_data_pipel.Common.Candle.{Candle}
use crypto_market_data_pipel.Backtest.Numbers.{Numbers, max_d, min_d}

pub record FrameInfo : Type 0 where
  pub symbol : String
  pub interval : ℕ
  pub start_ts : ℕ
  pub end_ts : ℕ
  pub candle_count : ℕ
  pub gap_count : ℕ

-- `df.index.has_duplicates`
abbrev pub elem : ℕ → List ℕ → Bool
elem t [] = false
elem t (u ∷ us) = t == u || elem t us

abbrev pub has_duplicates : List ℕ → Bool
has_duplicates [] = false
has_duplicates (t ∷ ts) = elem t ts || has_duplicates ts

-- `df.index.is_monotonic_increasing`
abbrev pub is_monotonic_from : ℕ → List ℕ → Bool
is_monotonic_from t [] = true
is_monotonic_from t (u ∷ us) = leb t u && is_monotonic_from u us

-- `(deltas != interval).sum()`, on an index that is not decreasing.
abbrev pub gaps_from : ℕ → ℕ → List ℕ → ℕ
gaps_from interval t [] = 0
gaps_from interval t (u ∷ us) = (if u - t == interval then 0 else 1) + gaps_from interval u us

module _ (n : Numbers) where
  -- A row of the frame: the index, and the columns as `float64`.
  pub record Row : Type 0 where
    pub index : ℕ
    pub open_price : n.F
    pub high : n.F
    pub low : n.F
    pub close : n.F
    pub volume : n.F

  -- `prices` is the `dict` from the index to the opening prices.
  pub record PreparedData : Type 0 where
    pub df : List Row
    pub prices : List (ℕ × n.D)
    pub final_close : n.D
    pub info : FrameInfo

  -- `prices[ts]`
  abbrev pub price_at : List (ℕ × n.D) → ℕ → Result n.D
  price_at [] ts = err key_error
  price_at ((t, price) ∷ prices) ts = if t == ts then ok price else price_at prices ts

  -- `c.high < max(c.open, c.close, c.low) or c.low > min(c.open, c.close, c.high)`
  abbrev pub is_incoherent : Candle n.D → Bool
  is_incoherent c =
      n.ltb_d c.high (max_d n (max_d n c.open_price c.close) c.low)
      || n.ltb_d (min_d n (min_d n c.open_price c.close) c.high) c.low

  -- `min(c.open, c.high, c.low, c.close) <= 0`
  abbrev pub is_not_positive : Candle n.D → Bool
  is_not_positive c =
      not (n.ltb_d n.zero_d (min_d n (min_d n (min_d n c.open_price c.high) c.low) c.close))

  -- The tests of the loop `for c in candles`, in order; each raises `ValueError`.
  abbrev pub is_refused : String → Candle n.D → Bool
  is_refused symbol c =
      not (str_eq c.symbol symbol)
      || is_incoherent c
      || n.ltb_d c.volume n.zero_d
      || is_not_positive c

  abbrev pub any_refused : String → List (Candle n.D) → Bool
  any_refused symbol [] = false
  any_refused symbol (c ∷ cs) = is_refused symbol c || any_refused symbol cs

  -- `df.isna().any().any()`
  abbrev pub any_nan : List (Candle n.D) → Bool
  any_nan [] = false
  any_nan (c ∷ cs) =
      n.isna c.open_price
      || n.isna c.high
      || n.isna c.low
      || n.isna c.close
      || n.isna c.volume
      || any_nan cs

  abbrev pub row_of_candle : Candle n.D → Row
  row_of_candle c = record {
    index = c.ts;
    open_price = n.float c.open_price;
    high = n.float c.high;
    low = n.float c.low;
    close = n.float c.close;
    volume = n.float c.volume;
  }

  -- The checks raise `ValueError`, but for gaps.
  abbrev pub check_frame : List (Candle n.D) → ℕ → Candle n.D → List (Candle n.D) → Bool
  check_frame candles interval first rest =
      let index = map (λ c. c.ts) rest in
      not (interval == 0)
      && not (any_refused first.symbol candles)
      && not (has_duplicates (first.ts ∷ index))
      && is_monotonic_from first.ts index
      && not (any_nan candles)

  abbrev pub frame_of : ℕ → Candle n.D → List (Candle n.D) → ℕ → PreparedData
  frame_of interval first rest gap_count = record {
    df = map row_of_candle (first ∷ rest);
    prices = map (λ c. (c.ts, c.open_price)) (first ∷ rest);
    final_close = (last_or first rest).close;
    info = record {
      symbol = first.symbol;
      interval = interval;
      start_ts = first.ts;
      end_ts = (last_or first rest).ts;
      candle_count = length (first ∷ rest);
      gap_count = gap_count;
    };
  }

  -- `if gap_count and not allow_gaps: raise GapError(gap_count)`
  abbrev pub with_gaps : ℕ → Bool → Candle n.D → List (Candle n.D) → ℕ → Result PreparedData
  with_gaps interval allow_gaps first rest gap_count =
      if not (gap_count == 0) && not allow_gaps
      then err (gap_error gap_count)
      else ok (frame_of interval first rest gap_count)

  unfoldable pub prepare_candles : List (Candle n.D) → ℕ → Bool → Result PreparedData
  prepare_candles [] interval allow_gaps = err value_error
  prepare_candles (first ∷ rest) interval allow_gaps =
      if check_frame (first ∷ rest) interval first rest
      then with_gaps interval allow_gaps first rest
          (gaps_from interval first.ts (map (λ c. c.ts) rest))
      else err value_error
