-- ===== src/Api/Queries/Views.antt =====
-- The queries of the API and of the backtest after two writers of the table, the backfill and the
-- writer's loop, in either order.
use crypto_market_data_pipel.Prelude.{
  ℕ, suc, ◌≡◌, sym, ap, ◌∙◌, Bool, ◌&&◌, List, leb, ltb, str_eq, String, length, take, filterb,
}
use crypto_market_data_pipel.Common.Candle.{Candle}
use crypto_market_data_pipel.Writer.Table.{insert_candles, order_by_ts, read_candles}
use crypto_market_data_pipel.Writer.Table.Keys.{IsKeyed}
use crypto_market_data_pipel.Writer.Table.Views.{Agree, windowed, order_by_ts-insert_candles_comm}
use crypto_market_data_pipel.Api.Queries.Limits.{length-order_by_ts}
use crypto_market_data_pipel.Api.Queries.{
  in_range, one_minute, fetch_backtest_candles, list_candles, count_candles,
}

module _ {D : Type 0} where
  -- The table after both writes.
  abbrev pub both_written : List (Candle D) → List (Candle D) → List (Candle D) → List (Candle D)
  both_written table xs ys = (insert_candles (insert_candles table xs).0 ys).0

  module _ (table xs ys : List (Candle D)) (symbol : String) (start end : ℕ) where
    selected :
        (p q : ℕ → Bool)
        → IsKeyed table
        → Agree xs ys
        → order_by_ts (
            filterb
              (λ row. str_eq row.symbol symbol && p row.ts && q row.ts)
              (both_written table xs ys))
          ≡ order_by_ts (
              filterb
                (λ row. str_eq row.symbol symbol && p row.ts && q row.ts)
                (both_written table ys xs))
    selected p q keyed agree =
        ap order_by_ts (windowed symbol p q (both_written table xs ys))
        ∙ order_by_ts-insert_candles_comm symbol (λ u. p u && q u) table xs ys keyed agree
        ∙ sym (ap order_by_ts (windowed symbol p q (both_written table ys xs)))

  -- The order of two writes is not seen. For a table that has each key once, and two batches that do not
  -- have different first candles with one key: after both writes, whichever went first, `read_candles`
  -- and `fetch_backtest_candles` return the same candles in the same order, a page of one-minute candles of
  -- `list_candles` is the same, and so is the number of `count_candles`.
  pub insert_candles_comm :
      (table xs ys : List (Candle D)) (symbol : String) (start end limit : ℕ)
      (by_hours : List (Candle D) → String → ℕ → ℕ → List (Candle D))
      → IsKeyed table
      → Agree xs ys
      → let one = both_written table xs ys in
        let other = both_written table ys xs in
        (read_candles one symbol start end ≡ read_candles other symbol start end)
        × (fetch_backtest_candles one symbol start end
            ≡ fetch_backtest_candles other symbol start end)
        × (list_candles by_hours one symbol start end limit one_minute
            ≡ list_candles by_hours other symbol start end limit one_minute)
        × (count_candles one symbol start end ≡ count_candles other symbol start end)
  unfolding read_candles fetch_backtest_candles list_candles count_candles
  insert_candles_comm table xs ys symbol start end limit by_hours keyed agree =
      let closed = selected table xs ys symbol start end (leb start) (λ u. leb u end) keyed agree in
      (
        selected table xs ys symbol start end (leb start) (λ u. ltb u end) keyed agree,
        closed,
        ap
            (λ rows.
              (take limit (take (suc limit) rows), ltb limit (length (take (suc limit) rows))))
            closed,
        sym (length-order_by_ts (filterb (in_range symbol start end) (both_written table xs ys)))
            ∙ ap length closed
            ∙ length-order_by_ts (filterb (in_range symbol start end) (both_written table ys xs)),
      )
