-- ===== src/Api/Routes/Coverage.antt =====
-- The figures of a coverage: no more candles are returned than are expected.
use crypto_market_data_pipel.Prelude.{
  ℕ, ◌+◌, ◌-◌, ◌*◌, ◌/◌, ◌%◌, ◌≤◌, ◌<◌, ◌≡◌, ◌≢◌, refl, ap, Bool, true, false, List, [], ◌∷◌, leb,
  eq_iff, String, length, filterb, arith, All, All-imp, ltb-false_of_le, if◌then◌else◌,
}
use crypto_market_data_pipel.Common.Candle.{Candle, minute}
use crypto_market_data_pipel.Writer.Table.{insert_sorted, order_by_ts, has_key}
use crypto_market_data_pipel.Writer.Table.Keys.{IsKeyed}
use crypto_market_data_pipel.Api.Queries.{in_range, count_candles}
use crypto_market_data_pipel.Api.Queries.Limits.{length-order_by_ts}
use crypto_market_data_pipel.Api.Routes.{
  CoverageOut, reply, http_exception, expected_for_range, get_coverage,
}

next_minute : (a b : ℕ) → a % minute ≡ 0 → b % minute ≡ 0 → a < b → a + minute ≤ b
next_minute a b h k l = omega arith

module _ {D : Type 0} where
  abbrev pub IsWhole : Candle D → Type 0
  IsWhole c = c.ts % minute ≡ 0

  -- Times that ascend by a minute at least, from a bound.
  abbrev IsSpaced : ℕ → List (Candle D) → Type 0
  IsSpaced t [] = Unit
  IsSpaced t (c ∷ cs) = (t ≤ c.ts) × IsSpaced (c.ts + minute) cs

  All-insert_sorted :
      (P : Candle D → Type 0) (c : Candle D) (ds : List (Candle D))
      → P c
      → All P ds
      → All P (insert_sorted c ds)
  All-insert_sorted P c [] h hs = (h, tt)
  All-insert_sorted P c (d ∷ ds) h (k, ks) = split (leb c.ts d.ts) (All-insert_sorted P c ds h ks)
    where
      split :
          (b : Bool)
          → All P (insert_sorted c ds)
          → All P (if b then c ∷ d ∷ ds else d ∷ insert_sorted c ds)
      split true ih = (h, (k, ks))
      split false ih = (k, ih)

  All-order_by_ts :
      (P : Candle D → Type 0) (cs : List (Candle D)) → All P cs → All P (order_by_ts cs)
  All-order_by_ts P [] h = tt
  All-order_by_ts P (c ∷ cs) (h, hs) =
      All-insert_sorted P c (order_by_ts cs) h (All-order_by_ts P cs hs)

  insert_sorted-IsSpaced :
      (t : ℕ) (c : Candle D) (ds : List (Candle D))
      → t ≤ c.ts
      → IsWhole c
      → All (λ d. IsWhole d × (d.ts ≢ c.ts)) ds
      → IsSpaced t ds
      → IsSpaced t (insert_sorted c ds)
  insert_sorted-IsSpaced t c [] h w ws s = (h, tt)
  insert_sorted-IsSpaced t c (d ∷ ds) h w ((v, apart), ws) (k, s) =
      split (leb c.ts d.ts) refl (λ l. insert_sorted-IsSpaced (d.ts + minute) c ds l w ws s)
    where
      split :
          (b : Bool)
          → leb c.ts d.ts ≡ b
          → (d.ts + minute ≤ c.ts → IsSpaced (d.ts + minute) (insert_sorted c ds))
          → IsSpaced t (if b then c ∷ d ∷ ds else d ∷ insert_sorted c ds)
      split true e ih =
          let before : c.ts < d.ts = ground arith in (h, (next_minute c.ts d.ts w v before, s))
      split false e ih = (k, ih (next_minute d.ts c.ts v w (ground arith)))

  -- The rows of one symbol in a range, of a table without two rows of a key, at whole minutes.
  abbrev IsRange : ℕ → ℕ → Candle D → Type 0
  IsRange start end c = (start ≤ c.ts) × (c.ts ≤ end) × IsWhole c

  IsRange-filterb :
      (symbol : String) (start end : ℕ) (rows : List (Candle D))
      → All IsWhole rows
      → All (IsRange start end) (filterb (in_range symbol start end) rows)
  IsRange-filterb symbol start end [] h = tt
  IsRange-filterb symbol start end (c ∷ cs) (h, hs) =
      split (in_range symbol start end c) refl (IsRange-filterb symbol start end cs hs)
    where
      split :
          (b : Bool)
          → in_range symbol start end c ≡ b
          → All (IsRange start end) (filterb (in_range symbol start end) cs)
          → All (IsRange start end) (
              if b
              then c ∷ filterb (in_range symbol start end) cs
              else filterb (in_range symbol start end) cs)
      split true e ih = ((ground arith, ground arith, h), ih)
      split false e ih = ih

  apart_from :
      (symbol : String) (start end : ℕ) (c : Candle D) (rows : List (Candle D))
      → in_range symbol start end c ≡ true
      → has_key c rows ≡ false
      → All (λ d. d.ts ≢ c.ts) (filterb (in_range symbol start end) rows)
  apart_from symbol start end c [] h k = tt
  apart_from symbol start end c (d ∷ ds) h k =
      split (in_range symbol start end d) refl (apart_from symbol start end c ds h (ground arith))
    where
      split :
          (b : Bool)
          → in_range symbol start end d ≡ b
          → All (λ d. d.ts ≢ c.ts) (filterb (in_range symbol start end) ds)
          → All
              (λ d. d.ts ≢ c.ts)
              (if b
                then d ∷ filterb (in_range symbol start end) ds
                else filterb (in_range symbol start end) ds)
      split true e ih = (
        (λ same.
            ground
              (arith, eq_iff c.symbol symbol, eq_iff d.symbol symbol, eq_iff d.symbol c.symbol)),
        ih,
      )
      split false e ih = ih

  both_of :
      (start end t : ℕ) (rest : List (Candle D))
      → All (IsRange start end) rest
      → All (λ d. d.ts ≢ t) rest
      → All (λ d. IsWhole d × (d.ts ≢ t)) rest
  both_of start end t [] p q = tt
  both_of start end t (d ∷ ds) (p, ps) (q, qs) = ((p.2, q), both_of start end t ds ps qs)

  -- The sorted rows of a query are at least a minute apart.
  query-IsSpaced :
      (symbol : String) (start end : ℕ) (rows : List (Candle D))
      → IsKeyed rows
      → All IsWhole rows
      → IsSpaced start (order_by_ts (filterb (in_range symbol start end) rows))
  query-IsSpaced symbol start end [] k h = tt
  query-IsSpaced symbol start end (c ∷ cs) (k, ks) (h, hs) =
      split (in_range symbol start end c) refl (query-IsSpaced symbol start end cs ks hs)
    where
      split :
          (b : Bool)
          → in_range symbol start end c ≡ b
          → IsSpaced start (order_by_ts (filterb (in_range symbol start end) cs))
          → IsSpaced start (
              order_by_ts (
                if b
                then c ∷ filterb (in_range symbol start end) cs
                else filterb (in_range symbol start end) cs))
      split true e ih =
          let rest = filterb (in_range symbol start end) cs in
          let both =
            both_of start end c.ts rest (IsRange-filterb symbol start end cs hs)
              (apart_from symbol start end c cs e k) in
          insert_sorted-IsSpaced start c (order_by_ts rest) (ground arith) h
            (All-order_by_ts (λ d. IsWhole d × (d.ts ≢ c.ts)) rest both) ih
      split false e ih = ih

  spaced_in_range :
      (t end : ℕ) (cs : List (Candle D))
      → t ≤ end + minute
      → IsSpaced t cs
      → All (λ c. c.ts ≤ end) cs
      → t + length cs * minute ≤ end + minute
  spaced_in_range t end [] h s r = omega arith
  spaced_in_range t end (c ∷ cs) h (k, s) (r, rs) =
      let rest = spaced_in_range (c.ts + minute) end cs (omega arith) s rs in omega arith

  -- A range holds no more candles of a symbol than minutes, both ends counted.
  pub count_candles-le :
      (table : List (Candle D)) (symbol : String) (start end : ℕ)
      → IsKeyed table
      → All IsWhole table
      → start ≤ end
      → count_candles table symbol start end ≤ (end - start + minute) / minute
  unfolding count_candles
  count_candles-le table symbol start end k h l =
      let rows = filterb (in_range symbol start end) table in
      let ends =
        All-imp (IsRange start end) (λ c. c.ts ≤ end) rows (λ c r. r.1)
          (IsRange-filterb symbol start end table h) in
      let room =
        spaced_in_range start end (order_by_ts rows) (omega arith)
          (query-IsSpaced symbol start end table k h)
          (All-order_by_ts (λ c. c.ts ≤ end) rows ends) in
      let same = length-order_by_ts rows in omega arith

  -- On a table of whole minutes without two rows of a key, `get_coverage` of a range whose start is not
  -- after its end answers with a coverage that returns no more candles than it expects.
  pub get_coverage-le :
      (table : List (Candle D)) (symbol : String) (start end : ℕ)
      → IsKeyed table
      → All IsWhole table
      → start ≤ end
      → (c : CoverageOut) × (get_coverage table symbol start end ≡ reply c)
        × (c.returned ≤ c.expected)
  unfolding get_coverage expected_for_range
  get_coverage-le table symbol start end k h l =
      let valid = ltb-false_of_le end start l in
      let answer : CoverageOut = record {
        start = start;
        end = end;
        expected = (end - start + minute) / minute;
        returned = count_candles table symbol start end;
        truncated = false;
      } in
      (
        answer,
        ap (λ b. if b then http_exception 422 else reply answer) valid,
        count_candles-le table symbol start end k h l,
      )
