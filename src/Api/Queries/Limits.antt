-- ===== src/Api/Queries/Limits.antt =====
-- What the pages of `list_candles` hold.
use crypto_market_data_pipel.Prelude.{
  ℕ, zero, suc, ◌≤◌, ◌<◌, ◌≡◌, ◌↔◌, refl, ap, ◌∙◌, Bool, true, false, min, List, [], ◌∷◌, leb,
  String, length, take, filterb, arith, length-take, take-take, if◌then◌else◌,
}
use crypto_market_data_pipel.Common.Candle.{Candle}
use crypto_market_data_pipel.Writer.Table.{insert_sorted, order_by_ts}
use crypto_market_data_pipel.Api.Queries.{
  one_minute, in_range, list_candles, count_candles, fetch_backtest_candles,
}

module _ {D : Type 0} where
  length-insert_sorted :
      (c : Candle D) (ds : List (Candle D)) → length (insert_sorted c ds) ≡ suc (length ds)
  length-insert_sorted c [] = refl
  length-insert_sorted c (d ∷ ds) = ground (arith, length-insert_sorted c ds)

  pub length-order_by_ts : (cs : List (Candle D)) → length (order_by_ts cs) ≡ length cs
  length-order_by_ts [] = refl
  length-order_by_ts (c ∷ cs) =
      length-insert_sorted c (order_by_ts cs) ∙ ap suc (length-order_by_ts cs)

  -- Times that ascend from a bound.
  abbrev pub IsAscending : ℕ → List (Candle D) → Type 0
  IsAscending t [] = Unit
  IsAscending t (c ∷ cs) = (t ≤ c.ts) × IsAscending c.ts cs

  insert_sorted-IsAscending :
      (t : ℕ) (c : Candle D) (ds : List (Candle D))
      → t ≤ c.ts
      → IsAscending t ds
      → IsAscending t (insert_sorted c ds)
  insert_sorted-IsAscending t c [] h a = (h, tt)
  insert_sorted-IsAscending t c (d ∷ ds) h (k, a) =
      split (leb c.ts d.ts) refl (insert_sorted-IsAscending d.ts c ds)
    where
      split :
          (b : Bool)
          → leb c.ts d.ts ≡ b
          → (d.ts ≤ c.ts → IsAscending d.ts ds → IsAscending d.ts (insert_sorted c ds))
          → IsAscending t (if b then c ∷ d ∷ ds else d ∷ insert_sorted c ds)
      split true e ih = (h, (ground arith, a))
      split false e ih = (k, ih (ground arith) a)

  order_by_ts-IsAscending : (cs : List (Candle D)) → IsAscending 0 (order_by_ts cs)
  order_by_ts-IsAscending [] = tt
  order_by_ts-IsAscending (c ∷ cs) =
      insert_sorted-IsAscending 0 c (order_by_ts cs) (omega arith) (order_by_ts-IsAscending cs)

  take-IsAscending : (m t : ℕ) (cs : List (Candle D)) → IsAscending t cs → IsAscending t (take m cs)
  take-IsAscending zero t cs a = tt
  take-IsAscending (suc m) t [] a = tt
  take-IsAscending (suc m) t (c ∷ cs) (h, a) = (h, take-IsAscending m c.ts cs a)

  -- A page of one-minute candles of `list_candles` is the first `limit` of the candles that `fetch_backtest_candles` gives for
  -- the same range, in ascending order of time; it holds as many of the `count_candles` candles as the
  -- limit lets, and is marked as truncated exactly if that leaves some out.
  pub list_candles-count_candles :
      (by_hours : List (Candle D) → String → ℕ → ℕ → List (Candle D)) (table : List (Candle D))
      (symbol : String) (start end limit : ℕ)
      → let (page, truncated) = list_candles by_hours table symbol start end limit one_minute in
        let count = count_candles table symbol start end in
        (page ≡ take limit (fetch_backtest_candles table symbol start end))
        × IsAscending 0 page
        × (length page ≡ min limit count)
        × ((truncated ≡ true) ↔ (length page < count))
  unfolding list_candles count_candles fetch_backtest_candles
  list_candles-count_candles by_hours table symbol start end limit =
      let rows = filterb (in_range symbol start end) table in
      let sorted = order_by_ts rows in
      let all = length-order_by_ts rows in
      let cut = take-take limit sorted in
      let page = ap length cut ∙ length-take limit sorted in
      let rows' = length-take (suc limit) sorted in
      let ascending =
        take-IsAscending limit 0 (take (suc limit) sorted)
          (take-IsAscending (suc limit) 0 sorted (order_by_ts-IsAscending rows)) in
      (cut, ascending, omega arith, ground arith)
