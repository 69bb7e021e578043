-- ===== src/Backfill/Fetch/Offline.antt =====
-- `fetch_range` without an exchange.
use crypto_market_data_pipel.Prelude.{ℕ, suc, ◌≡◌, ap, Option, none, some, [], String}
use crypto_market_data_pipel.Common.Errors.{err, http_error}
use crypto_market_data_pipel.Common.Json.{Codec}
use crypto_market_data_pipel.Backfill.Fetch.{
  Client, Params, World, fetch_klines, fetch_range, parse_fetched, last_complete_minute_ms,
  timestamp_ms, query_limit, receive,
}
use crypto_market_data_pipel.Backfill.Fetch.Steps.{fetch_pages-err}

-- An exchange that never answers.
pub record IsUnreachable {S : Type 0} (client : Client S) : Type 0 where
  pub silent : (p : Params) (s : S) → (client.get p s).1 ≡ none

module _ (c : Codec) {S : Type 0} (client : Client S) (unreachable : IsUnreachable client) where
  fetch_klines_fails :
      (symbol : String) (start_ms limit : ℕ) (end_ms : Option ℕ) (w : World S)
      → (w' : World S) × (fetch_klines client symbol start_ms end_ms limit w ≡ (w', err http_error))
  unfolding fetch_klines
  fetch_klines_fails symbol start_ms limit end_ms w =
      let p : Params = record {
        symbol = symbol;
        limit = limit;
        start_time = start_ms;
        end_time = end_ms;
      } in
      let w₁ : World S = record w { remote = (client.get p w.remote).0 } in
      (w₁, ap (receive w₁) (unreachable.silent p w.remote))

  pub fetch_range_fails :
      (fuel : ℕ) (symbol : String) (start end : ℕ) (w : World S)
      → (w' : World S) × (fetch_range c (suc fuel) client symbol start end w
          ≡ some (w', err http_error))
  unfolding fetch_range
  fetch_range_fails fuel symbol start end w =
      let last = last_complete_minute_ms end in
      let (w', e) = fetch_klines_fails symbol (timestamp_ms start) query_limit (some last) w in
      (
        w',
        ap (parse_fetched c symbol last)
            (fetch_pages-err client symbol last fuel (timestamp_ms start) [] w http_error e),
      )
