-- ===== src/Backfill/Fetch/Steps.antt =====
-- The four ways in which one round of the loop of `fetch_range` can end.
use crypto_market_data_pipel.Prelude.{
  ℕ, suc, ◌+◌, ◌≤◌, ◌≡◌, true, false, some, List, [], ◌∷◌, ◌++◌, String, arith,
}
use crypto_market_data_pipel.Common.Errors.{Error, ok, err}
use crypto_market_data_pipel.Common.Parse.{Kline}
use crypto_market_data_pipel.Backfill.Fetch.{
  Client, World, fetch_klines, fetch_pages, last_open_time, is_last_page, min_in_epoch, query_limit,
}

-- The loop goes on only while there is something left to ask for.
pub next-le-last :
    (last : ℕ) (page : List Kline) (next : ℕ) → is_last_page last page next ≡ false → next ≤ last
next-le-last last page next h = ground arith

module _ {S : Type 0} (client : Client S) (symbol : String) (last : ℕ) (fuel start : ℕ)
    (candles : List Kline) (w : World S) {w' : World S} where
  pub fetch_pages-err :
      (e : Error)
      → fetch_klines client symbol start (some last) query_limit w ≡ (w', err e)
      → fetch_pages client symbol last (suc fuel) start candles w ≡ some (w', err e)
  unfolding fetch_pages
  fetch_pages-err e h = rw (h, fetch_pages) (rw h)

  pub fetch_pages-nil :
      fetch_klines client symbol start (some last) query_limit w ≡ (w', ok [])
      → fetch_pages client symbol last (suc fuel) start candles w ≡ some (w', ok candles)
  unfolding fetch_pages
  fetch_pages-nil h = rw (h, fetch_pages) (rw h)

  module _ (row : Kline) (rows : List Kline)
      (h : fetch_klines client symbol start (some last) query_limit w ≡ (w', ok (row ∷ rows))) where
    pub fetch_pages_stops :
        is_last_page last (row ∷ rows) (last_open_time row rows + min_in_epoch) ≡ true
        → fetch_pages client symbol last (suc fuel) start candles w
          ≡ some (w', ok (candles ++ (row ∷ rows)))
    unfolding fetch_pages
    fetch_pages_stops e = rw (h, e, fetch_pages) (rw h)

    pub fetch_pages_goes_on :
        is_last_page last (row ∷ rows) (last_open_time row rows + min_in_epoch) ≡ false
        → fetch_pages client symbol last (suc fuel) start candles w
          ≡ fetch_pages client symbol last fuel
              (last_open_time row rows + min_in_epoch)
              (candles ++ (row ∷ rows))
              w'
    unfolding fetch_pages
    fetch_pages_goes_on e = rw (h, e, fetch_pages) (rw h)
