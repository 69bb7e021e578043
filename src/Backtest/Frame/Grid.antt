-- ===== src/Backtest/Frame/Grid.antt =====
-- What the checks of `prepare_candles` leave: candles on a grid, each with its price.
use mathlib.Core.Path.{subst}
use crypto_market_data_pipel.Prelude.{
  ℕ, ◌+◌, ◌*◌, ◌<◌, ◌≡◌, refl, sym, ap, ◌∙◌, Bool, true, false, not, ◌&&◌, List, [], ◌∷◌, ◌==◌,
  length, last_or, map, All, arith,
}
use crypto_market_data_pipel.Common.Errors.{ok}
use crypto_market_data_pipel.Common.Candle.{Candle}
use crypto_market_data_pipel.Backtest.Numbers.{Numbers}
use crypto_market_data_pipel.Backtest.Frame.{
  PreparedData, elem, has_duplicates, is_monotonic_from, gaps_from, price_at, is_refused,
  any_refused, any_nan, check_frame, frame_of, with_gaps, prepare_candles,
}

-- The times of a list are `t`, `t + interval`, and so on.
abbrev pub IsGrid : ℕ → ℕ → List ℕ → Type 0
IsGrid interval t [] = Unit
IsGrid interval t (u ∷ us) = (u ≡ t) × IsGrid interval (t + interval) us

no_gaps-IsGrid :
    (interval t : ℕ) (us : List ℕ)
    → is_monotonic_from t us ≡ true
    → gaps_from interval t us ≡ 0
    → IsGrid interval (t + interval) us
no_gaps-IsGrid interval t [] m h = tt
no_gaps-IsGrid interval t (u ∷ us) m h =
    let e : u ≡ t + interval = ground arith in
    let m' : is_monotonic_from u us ≡ true = ground arith in
    let h' : gaps_from interval u us ≡ 0 = ground arith in
    (e, rw (sym e) (no_gaps-IsGrid interval u us m' h'))

IsGrid-no_gaps :
    (interval t : ℕ) (us : List ℕ) → IsGrid interval (t + interval) us → gaps_from interval t us ≡ 0
IsGrid-no_gaps interval t [] g = refl
IsGrid-no_gaps interval t (u ∷ us) (e, g) =
    let rest = IsGrid-no_gaps interval u us (rw e g) in ground arith

IsGrid-monotonic :
    (interval t : ℕ) (us : List ℕ)
    → IsGrid interval (t + interval) us
    → is_monotonic_from t us ≡ true
IsGrid-monotonic interval t [] g = refl
IsGrid-monotonic interval t (u ∷ us) (e, g) =
    let rest = IsGrid-monotonic interval u us (rw e g) in ground arith

-- A time before the first one of a grid is not on it.
elem_before : (interval t u : ℕ) (us : List ℕ) → t < u → IsGrid interval u us → elem t us ≡ false
elem_before interval t u [] h g = refl
elem_before interval t u (v ∷ vs) h (e, g) =
    let rest = elem_before interval t (u + interval) vs (omega arith) g in ground arith

IsGrid-distinct :
    (interval t : ℕ) (us : List ℕ) → 0 < interval → IsGrid interval t us → has_duplicates us ≡ false
IsGrid-distinct interval t [] pos g = refl
IsGrid-distinct interval t (u ∷ us) pos (e, g) =
    let first = elem_before interval u (t + interval) us (omega arith) g in
    let rest = IsGrid-distinct interval (t + interval) us pos g in ground arith

all_true :
    (a b c d e : Bool)
    → (not a && not b && not c && d && not e) ≡ true
    → (b ≡ false) × (c ≡ false) × (d ≡ true)
all_true a b c d e h = ground arith

module _ (n : Numbers) where
  last_on_grid :
      (interval : ℕ) (first : Candle n.D) (rest : List (Candle n.D))
      → IsGrid interval (first.ts + interval) (map (λ c. c.ts) rest)
      → (last_or first rest).ts ≡ first.ts + interval * length rest
  last_on_grid interval first [] g = omega arith
  last_on_grid interval first (c ∷ cs) (e, g) =
      let rest = last_on_grid interval c cs (rw e g) in omega arith

  accepted :
      (symbol : _) (cs : List (Candle n.D))
      → any_refused n symbol cs ≡ false
      → All (λ c. is_refused n symbol c ≡ false) cs
  accepted symbol [] h = tt
  accepted symbol (c ∷ cs) h =
      let this : is_refused n symbol c ≡ false = ground arith in
      let later : any_refused n symbol cs ≡ false = ground arith in (this, accepted symbol cs later)

  price_behind :
      (t u : ℕ) (price : n.D) (prices : List (ℕ × n.D)) (d : n.D)
      → (t == u) ≡ false
      → price_at n prices u ≡ ok d
      → price_at n ((t, price) ∷ prices) u ≡ ok d
  price_behind t u price prices d h k = ground arith

  prices_behind :
      (t : ℕ) (price : n.D) (prices : List (ℕ × n.D)) (cs : List (Candle n.D))
      → elem t (map (λ c. c.ts) cs) ≡ false
      → All (λ c. price_at n prices c.ts ≡ ok c.open_price) cs
      → All (λ c. price_at n ((t, price) ∷ prices) c.ts ≡ ok c.open_price) cs
  prices_behind t price prices [] h k = tt
  prices_behind t price prices (c ∷ cs) h (k, ks) =
      let this : (t == c.ts) ≡ false = ground arith in
      let later : elem t (map (λ c. c.ts) cs) ≡ false = ground arith in
      (
        price_behind t c.ts price prices c.open_price this k,
        prices_behind t price prices cs later ks,
      )

  prices_of :
      (cs : List (Candle n.D))
      → has_duplicates (map (λ c. c.ts) cs) ≡ false
      → All (λ c. price_at n (map (λ c. (c.ts, c.open_price)) cs) c.ts ≡ ok c.open_price) cs
  prices_of [] h = tt
  prices_of (c ∷ cs) h =
      let new : elem c.ts (map (λ c. c.ts) cs) ≡ false = ground arith in
      let later : has_duplicates (map (λ c. c.ts) cs) ≡ false = ground arith in
      let prices : List (ℕ × n.D) = map (λ c. (c.ts, c.open_price)) cs in
      let known : (c.ts == c.ts) ≡ true = ground arith in
      let found : price_at n ((c.ts, c.open_price) ∷ prices) c.ts ≡ ok c.open_price =
        ground arith in
      (found, prices_behind c.ts c.open_price prices cs new (prices_of cs later))

  -- What a successful call has checked.
  checked :
      (first : Candle n.D) (rest : List (Candle n.D)) (interval : ℕ) (allow_gaps : Bool)
      {p : PreparedData n}
      → prepare_candles n (first ∷ rest) interval allow_gaps ≡ ok p
      → (check_frame n (first ∷ rest) interval first rest ≡ true)
        × (with_gaps n interval allow_gaps first rest
              (gaps_from interval first.ts (map (λ c. c.ts) rest))
            ≡ ok p)
  unfolding prepare_candles
  checked first rest interval allow_gaps h = ground arith

  check_parts :
      (first : Candle n.D) (rest : List (Candle n.D)) (interval : ℕ)
      → check_frame n (first ∷ rest) interval first rest ≡ true
      → (any_refused n first.symbol (first ∷ rest) ≡ false)
        × (has_duplicates (map (λ c. c.ts) (first ∷ rest)) ≡ false)
        × (is_monotonic_from first.ts (map (λ c. c.ts) rest) ≡ true)
  check_parts first rest interval h =
      all_true (interval == 0) (any_refused n first.symbol (first ∷ rest))
        (has_duplicates (map (λ c. c.ts) (first ∷ rest)))
        (is_monotonic_from first.ts (map (λ c. c.ts) rest)) (any_nan n (first ∷ rest)) h

  with_gaps-ok :
      (interval : ℕ) (allow_gaps : Bool) (first : Candle n.D) (rest : List (Candle n.D)) (k : ℕ)
      (p : PreparedData n)
      → with_gaps n interval allow_gaps first rest k ≡ ok p
      → p ≡ frame_of n interval first rest k
  with_gaps-ok interval allow_gaps first rest k p h = ground arith

  with_gaps-none :
      (interval : ℕ) (first : Candle n.D) (rest : List (Candle n.D)) (k : ℕ) (p : PreparedData n)
      → with_gaps n interval false first rest k ≡ ok p
      → k ≡ 0
  with_gaps-none interval first rest k p h = ground arith

  -- If `prepare_candles` succeeds, then the prices of the frame give, at the time of each candle, the
  -- opening price of that candle, and no candle is refused by the checks on symbol, prices and volume.
  pub prepare_candles-price_at :
      (first : Candle n.D) (rest : List (Candle n.D)) (interval : ℕ) (allow_gaps : Bool)
      (p : PreparedData n)
      → prepare_candles n (first ∷ rest) interval allow_gaps ≡ ok p
      → All (λ c. price_at n p.prices c.ts ≡ ok c.open_price) (first ∷ rest)
        × All (λ c. is_refused n first.symbol c ≡ false) (first ∷ rest)
  prepare_candles-price_at first rest interval allow_gaps p h =
      let (chk, made) = checked first rest interval allow_gaps h in
      let (fits, distinct, _) = check_parts first rest interval chk in
      let e = with_gaps-ok interval allow_gaps first rest _ p made in
      let Found : PreparedData n → Type 0 =
        λ q. All (λ c. price_at n q.prices c.ts ≡ ok c.open_price) (first ∷ rest) in
      (
        subst Found (sym e) (prices_of (first ∷ rest) distinct),
        accepted first.symbol (first ∷ rest) fits,
      )

  -- If `prepare_candles` succeeds without leave for gaps, then the candles stand one interval apart
  -- from the first to the last, and the frame's info names the first time, the last and no gap.
  pub prepare_candles-IsGrid :
      (first : Candle n.D) (rest : List (Candle n.D)) (interval : ℕ) (p : PreparedData n)
      → prepare_candles n (first ∷ rest) interval false ≡ ok p
      → IsGrid interval first.ts (map (λ c. c.ts) (first ∷ rest))
        × (p.info.start_ts ≡ first.ts)
        × (p.info.end_ts ≡ first.ts + interval * length rest)
        × (p.info.gap_count ≡ 0)
  prepare_candles-IsGrid first rest interval p h =
      let (chk, made) = checked first rest interval false h in
      let (_, _, ordered) = check_parts first rest interval chk in
      let e = with_gaps-ok interval false first rest _ p made in
      let none_missing = with_gaps-none interval first rest _ p made in
      let grid = no_gaps-IsGrid interval first.ts (map (λ c. c.ts) rest) ordered none_missing in
      (
        (refl, grid),
        ap (λ q. q.info.start_ts) e,
        ap (λ q. q.info.end_ts) e ∙ last_on_grid interval first rest grid,
        ap (λ q. q.info.gap_count) e ∙ none_missing,
      )

  -- `prepare_candles` accepts, with or without leave for gaps, candles that stand one positive interval
  -- apart, none of which is refused by the checks on symbol, prices and volume or has a NaN.
  pub prepare_candles_accepts :
      (first : Candle n.D) (rest : List (Candle n.D)) (interval : ℕ) (allow_gaps : Bool)
      → 0 < interval
      → IsGrid interval first.ts (map (λ c. c.ts) (first ∷ rest))
      → any_refused n first.symbol (first ∷ rest) ≡ false
      → any_nan n (first ∷ rest) ≡ false
      → prepare_candles n (first ∷ rest) interval allow_gaps ≡ ok (frame_of n interval first rest 0)
  unfolding prepare_candles
  prepare_candles_accepts first rest interval allow_gaps pos g ok_cs no_nan =
      let index = map (λ c. c.ts) rest in
      let distinct = IsGrid-distinct interval first.ts (first.ts ∷ index) pos g in
      let ordered = IsGrid-monotonic interval first.ts index g.1 in
      let none_missing = IsGrid-no_gaps interval first.ts index g.1 in
      let positive : (interval == 0) ≡ false = ground arith in
      rw (prepare_candles, positive, ok_cs, distinct, ordered, no_nan, none_missing) refl

-- Times that ascend from a time before them.
abbrev pub Ascends : ℕ → List ℕ → Type 0
Ascends t [] = Unit
Ascends t (u ∷ us) = (t < u) × Ascends u us

monotonic-Ascends :
    (t : ℕ) (us : List ℕ)
    → is_monotonic_from t us ≡ true
    → has_duplicates (t ∷ us) ≡ false
    → Ascends t us
monotonic-Ascends t [] m h = tt
monotonic-Ascends t (u ∷ us) m h =
    let before : t < u = ground arith in
    let m' : is_monotonic_from u us ≡ true = ground arith in
    let h' : has_duplicates (u ∷ us) ≡ false = ground arith in
    (before, monotonic-Ascends u us m' h')

module _ (n : Numbers) where
  -- What `prepare_candles` returns is the frame of the candles, whose times ascend.
  pub prepare_candles-frame_of :
      (first : Candle n.D) (rest : List (Candle n.D)) (interval : ℕ) (allow_gaps : Bool)
      (p : PreparedData n)
      → prepare_candles n (first ∷ rest) interval allow_gaps ≡ ok p
      → (k : ℕ) × (p ≡ frame_of n interval first rest k) × Ascends first.ts (map (λ c. c.ts) rest)
  prepare_candles-frame_of first rest interval allow_gaps p h =
      let (chk, made) = checked n first rest interval allow_gaps h in
      let (_, distinct, ordered) = check_parts n first rest interval chk in
      let e = with_gaps-ok n interval allow_gaps first rest _ p made in
      (_, e, monotonic-Ascends first.ts (map (λ c. c.ts) rest) ordered distinct)
