-- ===== src/Backfill/Fetch/Complete.antt =====
-- Against an exchange that serves a fixed history page by page, `fetch_range` returns the whole of
-- the requested range, each candle once.
use mathlib.Core.List.{append-nil, append_assoc}
use mathlib.Core.Path.{subst}
use crypto_market_data_pipel.Prelude.{
  ℕ, zero, suc, ◌+◌, ◌*◌, ◌≤◌, ◌<◌, ◌≡◌, ◌≢◌, refl, All, sym, ap, ◌∙◌, Option, some, List, [], ◌∷◌,
  ◌++◌, String, arith, Bool-cases, inl, inr, length, take, drop, drop-eq_nil, take-append-drop,
  true, ltb, ltb→lt,
}
use crypto_market_data_pipel.Common.Errors.{ok}
use crypto_market_data_pipel.Common.Parse.{Kline}
use crypto_market_data_pipel.Backfill.Fetch.{
  receive, absent, used, Client, World, Params, Response, Weight, response, malformed, fetch_klines,
  fetch_pages, last_open_time, is_last_page, min_in_epoch, query_limit,
}
use crypto_market_data_pipel.Backfill.Fetch.Steps.{
  next-le-last, fetch_pages-nil, fetch_pages_stops, fetch_pages_goes_on,
}
use crypto_market_data_pipel.Backfill.Fetch.Pages.{
  since, between, IsSpaced, since-between, IsSpaced-between, between_bounds, between_empty,
  since-take, le-last_open_time,
}

-- The reply holds these rows, with a header that `int` reads.
abbrev pub Holds : List Kline → Option Response → Type 0
Holds rows reply = (weight : Weight) × (weight ≢ malformed) × (reply ≡ some (response weight rows))

-- The documented behaviour of the klines endpoint over a fixed history: the first `limit` rows, in
-- order, that open between `startTime` and `endTime`.
pub record IsHonest {S : Type 0} (history : String → List Kline) (client : Client S) : Type 0 where
  pub serves :
      (p : Params) (e : ℕ) (s : S)
      → p.end_time ≡ some e
      → Holds (take p.limit (between p.start_time e (history p.symbol))) (client.get p s).1

receive_response :
    {S : Type 0} (w : World S) (weight : Weight) (rows : List Kline)
    → weight ≢ malformed
    → (w' : World S) × (receive w (some (response weight rows)) ≡ (w', ok rows))
receive_response w absent rows h = (_, refl)
receive_response w malformed rows h = absurd (h refl)
receive_response w (used n) rows h = (_, refl)

page_then_rest :
    (n : ℕ) (candles : List Kline) (row : Kline) (rows : List Kline)
    → (candles ++ (row ∷ take n rows)) ++ drop n rows ≡ candles ++ (row ∷ rows)
page_then_rest n candles row rows =
    append_assoc candles (row ∷ take n rows) (drop n rows)
    ∙ ap (λ (b : List Kline). candles ++ (row ∷ b)) (take-append-drop n rows)

whole_page :
    (n : ℕ) (candles : List Kline) (row : Kline) (rows : List Kline)
    → drop n rows ≡ []
    → candles ++ (row ∷ take n rows) ≡ candles ++ (row ∷ rows)
whole_page n candles row rows h =
    sym (append-nil _)
    ∙ ap (λ (b : List Kline). (candles ++ (row ∷ take n rows)) ++ b) (sym h)
    ∙ page_then_rest n candles row rows

module _ {S : Type 0} (client : Client S) (history : String → List Kline)
    (honest : IsHonest history client) (symbol : String) (last : ℕ) where
  fetch_klines_served :
      (start limit : ℕ) (w : World S)
      → (w' : World S) × (fetch_klines client symbol start (some last) limit w
          ≡ (w', ok (take limit (between start last (history symbol)))))
  unfolding fetch_klines
  fetch_klines_served start limit w =
      let p : Params = record {
        symbol = symbol;
        limit = limit;
        start_time = start;
        end_time = some last;
      } in
      let rows = take limit (between start last (history symbol)) in
      let (weight, readable, e) = honest.serves p last w.remote refl in
      let w₁ : World S = record w { remote = (client.get p w.remote).0 } in
      let (w', r) = receive_response w₁ weight rows readable in (w', ap (receive w₁) e ∙ r)

  module _ (spaced : IsSpaced (history symbol)) where
    range_IsSpaced :
        (start : ℕ) (rows : List Kline) → between start last (history symbol) ≡ rows → IsSpaced rows
    range_IsSpaced start rows e =
        subst IsSpaced e (IsSpaced-between start last (history symbol) spaced)

    start_le :
        (n start : ℕ) (row : Kline) (rows : List Kline)
        → between start last (history symbol) ≡ row ∷ rows
        → start ≤ last_open_time row (take n rows)
    start_le n start row rows e =
        let bounds =
          subst (All (λ r. (start ≤ r.open_time) × (r.open_time ≤ last))) e
            (between_bounds start last (history symbol)) in
        omega
          (arith, bounds.0.0, le-last_open_time n row rows (range_IsSpaced start (row ∷ rows) e))

    -- What is left after the first `n + 1` rows of the range.
    between_left :
        (n start : ℕ) (row : Kline) (rows : List Kline)
        → between start last (history symbol) ≡ row ∷ rows
        → between (last_open_time row (take n rows) + min_in_epoch) last (history symbol)
          ≡ drop n rows
    between_left n start row rows e =
        let next = last_open_time row (take n rows) + min_in_epoch in
        let later : start ≤ next = omega (arith, start_le n start row rows e) in
        sym (since-between start next last (history symbol) later)
        ∙ ap (since next) e
        ∙ since-take n row rows (range_IsSpaced start (row ∷ rows) e)

    -- The loop stops only after the last row of the range.
    last_page_left :
        (n start : ℕ) (row : Kline) (rows : List Kline)
        → between start last (history symbol) ≡ row ∷ rows
        → suc n ≡ query_limit
        → is_last_page last (row ∷ take n rows) (last_open_time row (take n rows) + min_in_epoch)
          ≡ true
        → drop n rows ≡ []
    last_page_left n start row rows e full stops =
        let next = last_open_time row (take n rows) + min_in_epoch in
        elim (Bool-cases (ltb (length (row ∷ take n rows)) query_limit)) [
          | inl short ↦
              let fewer : length (take n rows) < n =
                omega (arith, ltb→lt (length (row ∷ take n rows)) query_limit short) in
              drop-eq_nil n rows fewer
          | inr long ↦
              let past : last < next = ltb→lt last next (ground arith) in
              sym (between_left n start row rows e) ∙ between_empty next last (history symbol) past
        ]

    pub fetch_pages_complete :
        (fuel start : ℕ) (candles : List Kline) (w : World S)
        → 0 < fuel
        → last < start + fuel * min_in_epoch
        → (w' : World S) × (fetch_pages client symbol last fuel start candles w
            ≡ some (w', ok (candles ++ between start last (history symbol))))
    fetch_pages_complete zero start candles w pos h = elim pos [ ]
    fetch_pages_complete (suc f) start candles w pos h =
        let (w', served) = fetch_klines_served start query_limit w in
        split (fetch_pages_complete f) w' served _ refl
      where
        split :
            ((start : ℕ) (candles : List Kline) (w : World S)
              → 0 < f
              → last < start + f * min_in_epoch
              → (w' : World S) × (fetch_pages client symbol last f start candles w
                  ≡ some (w', ok (candles ++ between start last (history symbol)))))
            → (w' : World S)
            → fetch_klines client symbol start (some last) query_limit w
              ≡ (w', ok (take query_limit (between start last (history symbol))))
            → (rest : List Kline) → between start last (history symbol) ≡ rest
            → (w' : World S) × (fetch_pages client symbol last (suc f) start candles w
                ≡ some (w', ok (candles ++ between start last (history symbol))))
        split ih w' served [] e =
            let done =
              fetch_pages-nil client symbol last f start candles w
                (served ∙ ap (λ (b : List Kline). (w', ok (take query_limit b))) e) in
            (
              w',
              done
                  ∙ ap (λ (b : List Kline). some (w', ok b))
                      (sym (append-nil candles) ∙ ap (λ (b : List Kline). candles ++ b) (sym e)),
            )
        split ih w' served (row ∷ rows) e =
            let page = take 999 rows in
            let next = last_open_time row page + min_in_epoch in
            let got : fetch_klines client symbol start (some last) query_limit w
                ≡ (w', ok (row ∷ page)) =
              served ∙ ap (λ (b : List Kline). (w', ok (take query_limit b))) e in
            elim (Bool-cases (is_last_page last (row ∷ page) next)) [
              | inl stops ↦
                  let none_left = last_page_left 999 start row rows e refl stops in
                  (
                    w',
                    fetch_pages_stops client symbol last f start candles w row page got stops
                        ∙ ap (λ (b : List Kline). some (w', ok b))
                            (whole_page 999 candles row rows none_left
                              ∙ ap (λ (b : List Kline). candles ++ b) (sym e)),
                  )
              | inr goes ↦
                  let further = next-le-last last (row ∷ page) next goes in
                  let (w'', p) =
                    ih next (candles ++ (row ∷ page)) w'
                      (omega (arith, start_le 999 start row rows e))
                      (omega (arith, start_le 999 start row rows e)) in
                  (
                    w'',
                    fetch_pages_goes_on client symbol last f start candles w row page got goes
                        ∙ p
                        ∙ ap (λ (b : List Kline). some (w'', ok b))
                            (ap (λ (b : List Kline). (candles ++ (row ∷ page)) ++ b)
                                (between_left 999 start row rows e)
                              ∙ page_then_rest 999 candles row rows
                              ∙ ap (λ (b : List Kline). candles ++ b) (sym e)),
                  )
            ]
