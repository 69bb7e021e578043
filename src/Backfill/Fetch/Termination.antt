-- ===== src/Backfill/Fetch/Termination.antt =====
-- The loop of `fetch_range` ends, with a bound on its rounds.
use crypto_market_data_pipel.Prelude.{
  ℕ, zero, suc, ◌+◌, ◌*◌, ◌≤◌, ◌<◌, ◌≡◌, refl, Option, some, List, [], ◌∷◌, ◌++◌, String, arith,
  Bool-cases, inl, inr, ◌∙◌,
}
use crypto_market_data_pipel.Common.Errors.{Result, ok, err}
use crypto_market_data_pipel.Common.Parse.{Kline}
use crypto_market_data_pipel.Backfill.Fetch.{
  Client, World, Params, Response, response, fetch_klines, fetch_pages, last_open_time,
  is_last_page, min_in_epoch, query_limit,
}
use crypto_market_data_pipel.Backfill.Fetch.Steps.{
  next-le-last, fetch_pages-err, fetch_pages-nil, fetch_pages_stops, fetch_pages_goes_on,
}

-- The last row of a page does not lie before the time that the request names.
abbrev pub IsAhead : Params → Option Response → Type 0
IsAhead p (some (response weight (row ∷ rows))) = p.start_time ≤ last_open_time row rows
IsAhead p _ = Unit

-- An exchange that never answers with a page that lies before the request's `startTime`.
pub record NeverGoesBack {S : Type 0} (client : Client S) : Type 0 where
  pub ahead : (p : Params) (s : S) → IsAhead p (client.get p s).1

module _ {S : Type 0} (client : Client S) (forward : NeverGoesBack client) (symbol : String)
    (last : ℕ) where
  start-le-last_open_time :
      (start limit : ℕ) (w : World S) {w' : World S} (row : Kline) (rows : List Kline)
      → fetch_klines client symbol start (some last) limit w ≡ (w', ok (row ∷ rows))
      → start ≤ last_open_time row rows
  unfolding fetch_klines
  start-le-last_open_time start limit w row rows h =
      let p : Params = record {
        symbol = symbol;
        limit = limit;
        start_time = start;
        end_time = some last;
      } in
      ground (arith, forward.ahead p w.remote)

  -- Against an exchange that never answers with a page that lies before the requested start, the loop
  -- of `fetch_range` comes to a result within one round for each minute from `start` to past `last`.
  pub fetch_pages_total :
      (fuel start : ℕ) (candles : List Kline) (w : World S)
      → 0 < fuel
      → last < start + fuel * min_in_epoch
      → (r : World S × Result (List Kline)) × (fetch_pages client symbol last fuel start candles w
          ≡ some r)
  fetch_pages_total zero start candles w pos h = elim pos [ ]
  fetch_pages_total (suc f) start candles w pos h = split (fetch_pages_total f) _ refl
    where
      split :
          ((start : ℕ) (candles : List Kline) (w : World S)
            → 0 < f
            → last < start + f * min_in_epoch
            → (r : World S × Result (List Kline)) × (fetch_pages client symbol last f start candles
                  w
                ≡ some r))
          → (reply : World S × Result (List Kline))
          → fetch_klines client symbol start (some last) query_limit w ≡ reply
          → (r : World S × Result (List Kline)) × (fetch_pages client symbol last
                (suc f)
                start
                candles
                w
              ≡ some r)
      split ih (w', err e) q = (_, fetch_pages-err client symbol last f start candles w e q)
      split ih (w', ok []) q = (_, fetch_pages-nil client symbol last f start candles w q)
      split ih (w', ok (row ∷ rows)) q =
          let next = last_open_time row rows + min_in_epoch in
          elim (Bool-cases (is_last_page last (row ∷ rows) next)) [
            | inl e ↦ (_, fetch_pages_stops client symbol last f start candles w row rows q e)
            | inr e ↦
                let further = next-le-last last (row ∷ rows) next e in
                let past = start-le-last_open_time start query_limit w row rows q in
                let (r, p) = ih next (candles ++ (row ∷ rows)) w' (omega arith) (omega arith) in
                (r, fetch_pages_goes_on client symbol last f start candles w row rows q e ∙ p)
          ]
