-- ===== src/Backfill/Fetch/Range.antt =====
-- `fetch_range` and `last_complete_minute_ms` as their callers see them.
use crypto_market_data_pipel.Prelude.{
  ℕ, ◌+◌, ◌*◌, ◌%◌, ◌≤◌, ◌<◌, ◌≡◌, ◌≢◌, refl, ap, ◌∙◌, Option, none, some, List, [], ◌∷◌, String,
  arith, All, All-last_or, last_or, false, ltb-false_of_le, if◌then◌else◌, Bool-cases, inl, inr,
}
use crypto_market_data_pipel.Common.Errors.{Result, ok, err, runtime_error}
use crypto_market_data_pipel.Common.Candle.{Candle, minute}
use crypto_market_data_pipel.Common.Json.{Codec}
use crypto_market_data_pipel.Common.Parse.{Kline, parse_kline}
use crypto_market_data_pipel.Backfill.Fetch.{
  Client, World, fetch_range, parse_klines, parse_fetched, finish, last_complete_minute_ms,
  timestamp_ms, last_open_time, in_progress, min_in_epoch,
}
use crypto_market_data_pipel.Backfill.Fetch.Pages.{between, IsSpaced, between_bounds}
use crypto_market_data_pipel.Backfill.Fetch.Complete.{IsHonest, fetch_pages_complete}

-- From the second minute of 1970 on, the value is the start of a minute that ends at `now` or less
-- than a minute before it: the last minute that is over.
pub last_complete_minute_ms_lem :
    (now : ℕ)
    → minute ≤ now
    → let last = last_complete_minute_ms now in
      (last % min_in_epoch ≡ 0) × (last * 1000 + minute ≤ now) × (now < last * 1000 + 2 * minute)
unfolding last_complete_minute_ms
last_complete_minute_ms_lem now h = (omega arith, omega arith, omega arith)

range_complete :
    (start last : ℕ) (rows : List Kline) → in_progress last (between start last rows) ≡ false
range_complete start last rows = split (between start last rows) (between_bounds start last rows)
  where
    split :
        (b : List Kline)
        → All (λ row. (start ≤ row.open_time) × (row.open_time ≤ last)) b
        → in_progress last b ≡ false
    split [] h = refl
    split (row ∷ rows) h =
        ltb-false_of_le last (last_open_time row rows)
          (All-last_or (λ row. (start ≤ row.open_time) × (row.open_time ≤ last)) row rows h.0 h.1).1

module _ (c : Codec) where
  pub parse_kline-ts :
      (symbol : String) (row : Kline) (candle : Candle c.D)
      → parse_kline c symbol row ≡ ok candle
      → (candle.ts ≡ row.open_time * 1000) × (candle.symbol ≡ symbol)
  unfolding parse_kline
  parse_kline-ts symbol row candle h = ground arith

  parse_klines-cons :
      (symbol : String) (row : Kline) (rows : List Kline) (x : Candle c.D) (xs : List (Candle c.D))
      → parse_klines c symbol (row ∷ rows) ≡ ok (x ∷ xs)
      → (parse_kline c symbol row ≡ ok x) × (parse_klines c symbol rows ≡ ok xs)
  unfolding parse_klines
  parse_klines-cons symbol row rows x xs h = ground arith

  parse_klines-nil :
      (symbol : String) (row : Kline) (rows : List Kline)
      → parse_klines c symbol (row ∷ rows) ≢ ok []
  unfolding parse_klines
  parse_klines-nil symbol row rows h = ground arith

  parse_klines-last :
      (symbol : String) (row : Kline) (rows : List Kline) (x : Candle c.D) (xs : List (Candle c.D))
      → parse_klines c symbol (row ∷ rows) ≡ ok (x ∷ xs)
      → (last_or x xs).ts ≡ last_open_time row rows * 1000
  parse_klines-last symbol row [] x [] h =
      (parse_kline-ts symbol row x (parse_klines-cons symbol row [] x [] h).0).0
  parse_klines-last symbol row [] x (y ∷ ys) h =
      unfold parse_klines in cc (parse_klines-cons symbol row [] x (y ∷ ys) h).1
  parse_klines-last symbol row (next ∷ rows) x [] h =
      absurd
        (parse_klines-nil symbol next rows (parse_klines-cons symbol row (next ∷ rows) x [] h).1)
  parse_klines-last symbol row (next ∷ rows) x (y ∷ ys) h =
      parse_klines-last symbol next rows y ys
        (parse_klines-cons symbol row (next ∷ rows) x (y ∷ ys) h).1

  finish_finalized :
      (symbol : String) (last : ℕ) (rows : List Kline) (x : Candle c.D) (xs : List (Candle c.D))
      → finish c symbol last rows ≡ ok (x ∷ xs)
      → (last_or x xs).ts ≤ last * 1000
  finish_finalized symbol last [] x xs h = unfold parse_klines in cc h
  finish_finalized symbol last (row ∷ rows) x xs h =
      elim (Bool-cases (in_progress last (row ∷ rows))) [
        | inl e ↦ absurd (cc (rw e at h))
        | inr e ↦
            let in_time : last_open_time row rows ≤ last = ground arith in
            let at_last = parse_klines-last symbol row rows x xs (rw e at h) in omega arith
      ]

  parse_fetched_finalized :
      {S : Type 0} (symbol : String) (last : ℕ) (fetched : Option (World S × Result (List Kline)))
      (w : World S) (x : Candle c.D) (xs : List (Candle c.D))
      → parse_fetched c symbol last fetched ≡ some (w, ok (x ∷ xs))
      → (last_or x xs).ts ≤ last * 1000
  parse_fetched_finalized symbol last none w x xs h = cc
  parse_fetched_finalized symbol last (some (v, err e)) w x xs h = cc
  parse_fetched_finalized symbol last (some (v, ok rows)) w x xs h =
      finish_finalized symbol last rows x xs (cc)

  -- Rows that open at a time or later give candles of that time or later.
  pub parse_klines-from :
      (symbol : String) (start : ℕ) (rows : List Kline) (candles : List (Candle c.D))
      → All (λ row. start ≤ row.open_time) rows
      → parse_klines c symbol rows ≡ ok candles
      → All (λ candle. start * 1000 ≤ candle.ts) candles
  parse_klines-from symbol start rows [] h e = tt
  parse_klines-from symbol start [] (x ∷ xs) h e = unfold parse_klines in cc e
  parse_klines-from symbol start (row ∷ rows) (x ∷ xs) (first, others) e =
      let (this, rest) = parse_klines-cons symbol row rows x xs e in
      let (at, _) = parse_kline-ts symbol row x this in
      (omega arith, parse_klines-from symbol start rows xs others rest)

  -- From the second minute of 1970 on, whatever the exchange answers: the minute of the last candle
  -- that `fetch_range` returns is over at `end`.
  pub fetch_range_finalized :
      {S : Type 0} (client : Client S) (symbol : String) (fuel start end : ℕ) (w w' : World S)
      (x : Candle c.D) (xs : List (Candle c.D))
      → minute ≤ end
      → fetch_range c fuel client symbol start end w ≡ some (w', ok (x ∷ xs))
      → (last_or x xs).ts + minute ≤ end
  unfolding fetch_range
  fetch_range_finalized client symbol fuel start end w w' x xs late h =
      let (_, over, _) = last_complete_minute_ms_lem end late in
      let bound = parse_fetched_finalized symbol (last_complete_minute_ms end) _ w' x xs h in
      omega arith

  module _ {S : Type 0} (client : Client S) (history : String → List Kline)
      (honest : IsHonest history client) (symbol : String)
      (spaced : IsSpaced (history symbol)) where
    -- `fetch_range` returns the candles of exactly the minutes of the history that open at
    -- `start` or later and are over at `end`.
    pub fetch_range_complete :
        (fuel start end : ℕ) (w : World S)
        → 0 < fuel
        → last_complete_minute_ms end < timestamp_ms start + fuel * min_in_epoch
        → (w' : World S) × (fetch_range c fuel client symbol start end w
            ≡ some (
              w',
              parse_klines c symbol
                  (between (timestamp_ms start) (last_complete_minute_ms end) (history symbol)),
            ))
    unfolding fetch_range
    fetch_range_complete fuel start end w pos h =
        let start_ms = timestamp_ms start in
        let last = last_complete_minute_ms end in
        let (w', e) =
          fetch_pages_complete client history honest symbol last spaced fuel start_ms [] w pos h in
        (
          w',
          ap (parse_fetched c symbol last) e
              ∙ ap
                  (λ b. some (
                    w',
                    if b
                        then err runtime_error
                        else parse_klines c symbol (between start_ms last (history symbol)),
                  ))
                  (range_complete start_ms last (history symbol)),
        )
