-- ===== src/Ingester/Stream/Failures.antt =====
-- What a failing fetch does to a gap: the heal after the next reconnect starts behind it.
use mathlib.Core.List.{append_assoc}
use crypto_market_data_pipel.Prelude.{
  ℕ, suc, ◌+◌, ◌*◌, ◌%◌, ◌≤◌, ◌<◌, ◌≡◌, refl, ◌∙◌, ap, Bool, true, false, some, List, [], ◌∷◌, ◌++◌,
  ◌==◌, ◌-◌, ◌/◌, eq_refl, if◌then◌else◌, Bool-cases, inl, inr, lt→ltb, String, All, All-imp,
  All-append, arith,
}
use crypto_market_data_pipel.Common.Errors.{ok}
use crypto_market_data_pipel.Common.Candle.{Candle, minute}
use crypto_market_data_pipel.Common.Dict.{get, set_item, get-set_item, fromkeys}
use crypto_market_data_pipel.Common.Json.{Codec, Json}
use crypto_market_data_pipel.Common.Parse.{Kline, parse_ws_candle}
use crypto_market_data_pipel.Backfill.Fetch.{
  Client, World, fetch_range, parse_klines, last_complete_minute_ms, timestamp_ms, min_in_epoch,
}
use crypto_market_data_pipel.Backfill.Fetch.Pages.{IsSpaced, between_bounds}
use crypto_market_data_pipel.Backfill.Fetch.Complete.{IsHonest}
use crypto_market_data_pipel.Backfill.Fetch.Range.{parse_klines-from}
use crypto_market_data_pipel.Backfill.Fetch.Offline.{IsUnreachable, fetch_range_fails}
use crypto_market_data_pipel.Ingester.Stream.{
  Producer, Ingester, returned, publish, healed, heal_since, acknowledged, advance, on_connected,
  handle_msg, is_closed, event_of,
}
use crypto_market_data_pipel.Ingester.Stream.Steps.{settled, handle_msg_reconnected}
use crypto_market_data_pipel.Ingester.Stream.Publishing.{AlwaysAcks, publish-log}
use crypto_market_data_pipel.Ingester.Stream.Healing.{gap_rows, handle_msg_heals}

module _ (c : Codec) {S : Type 0} (client : Client S) where
  -- The rows of a gap are later than the candle before it.
  gap_rows_after :
      (history : String → List Kline) (last ts : ℕ) (symbol : String) (candles : List (Candle c.D))
      → parse_klines c symbol (gap_rows history symbol last ts) ≡ ok candles
      → All (λ x. last ≤ x.ts) candles
  gap_rows_after history last ts symbol candles e =
      let start = timestamp_ms (last + minute) in
      let rows = gap_rows history symbol last ts in
      let bounds = between_bounds start (last_complete_minute_ms ts) (history symbol) in
      let from =
        parse_klines-from c symbol start rows candles (All-imp _ _ rows (λ row h. h.0) bounds) e in
      All-imp _ _ candles (λ x h. omega arith) from

  module _ {P : Type 0} (broker : Producer c.Bytes P) (reliable : AlwaysAcks broker)
      (unreachable : IsUnreachable client) (fuel : ℕ) where
    last_ts-publish :
        (candle : Candle c.D) (s : Ingester c P S) (last : ℕ)
        → get s.last_ts candle.symbol ≡ some last
        → last < candle.ts
        → get (publish c broker candle s).last_ts candle.symbol ≡ some candle.ts
    unfolding publish
    last_ts-publish candle s last e newer = split _ (reliable.acks _ _ _ _)
      where
        split :
            (reply : P × Bool)
            → reply.1 ≡ true
            → get (acknowledged c candle s reply).last_ts candle.symbol ≡ some candle.ts
        split (p, false) h = cc
        split (p, true) h =
            ap (λ o. get (advance c s.last_ts candle o) candle.symbol) e
            ∙ ap
                (λ b.
                  get (if b then set_item s.last_ts candle.symbol candle.ts else s.last_ts)
                    candle.symbol)
                (lt→ltb last candle.ts newer)
            ∙ get-set_item s.last_ts candle.symbol candle.symbol candle.ts
            ∙ ap (λ b. if b then some candle.ts else get s.last_ts candle.symbol)
                (eq_refl candle.symbol)

    heal_since_offline :
        (candle : Candle c.D) (s : Ingester c P S) (last : ℕ)
        → (w : World S) × (heal_since c broker client (suc fuel) candle s (some last)
            ≡ some (record s { world = w }))
    heal_since_offline candle s last =
        let missing = (candle.ts - last) / minute - 1 in
        let (w, fails) =
          fetch_range_fails c client unreachable fuel candle.symbol (last + minute) candle.ts
            s.world in
        let reply =
          fetch_range c (suc fuel) client candle.symbol (last + minute) candle.ts s.world in
        elim (Bool-cases (missing == 0)) [
          | inl e ↦ (s.world, ap (λ b. if b then some s else healed c broker s reply) e)
          | inr e ↦ (
            w,
            ap (λ b. if b then some s else healed c broker s reply) e
                ∙ ap (healed c broker s) fails,
          )
        ]

    publish-symbols :
        (candle : Candle c.D) (s : Ingester c P S) → (publish c broker candle s).symbols ≡ s.symbols
    unfolding publish
    publish-symbols candle s = split _
      where
        split : (reply : P × Bool) → (acknowledged c candle s reply).symbols ≡ s.symbols
        split (p, false) = refl
        split (p, true) = refl

    -- The candle after the gap is published alone, and `_last_ts` moves past the gap.
    gap_skipped :
        (msg event k : Json) (candle : Candle c.D) (s : Ingester c P S) (last : ℕ)
        → event_of msg ≡ ok (event, k)
        → is_closed k ≡ ok true
        → parse_ws_candle c event ≡ ok candle
        → get s.reconnected candle.symbol ≡ some true
        → get s.last_ts candle.symbol ≡ some last
        → last < candle.ts
        → (s' : Ingester c P S) × (handle_msg c broker client (suc fuel) msg s ≡ returned s')
          × (s'.log ≡ s.log ++ (candle ∷ []))
          × (s'.symbols ≡ s.symbols)
          × (get s'.last_ts candle.symbol ≡ some candle.ts)
    gap_skipped msg event k candle s last he hk hp hr hl newer =
        let s₁ : Ingester c P S = record s { received = s.received + 1; kept = s.kept + 1 } in
        let (w, heals) = heal_since_offline candle s₁ last in
        let s₂ : Ingester c P S = record s₁ { world = w } in
        let s₃ : Ingester c P S = settled c broker candle s₂ in
        (
          publish c broker candle s₃,
          handle_msg_reconnected c broker client (suc fuel) msg event k candle s s₂ last he hk hp hr
              hl heals,
          publish-log c broker reliable candle s₃,
          publish-symbols candle s₃,
          last_ts-publish candle s₃ last hl newer,
        )

    module _ (client' : Client S) (history : String → List Kline)
        (honest : IsHonest history client') where
      -- A gap that the next heal leaves out. The first closed candle of a symbol after a reconnect shows that
      -- minutes are missing, while the exchange gives no answer; then the connection is made again, and
      -- the next candle of the symbol comes while the exchange serves its history, with enough rounds and
      -- rows that parse. The second heal starts after the first of the two candles: what both messages
      -- put on the topic is the first candle, the rows of the history between the two, and the second,
      -- and no candle before the first, though the history may have them.
      pub gap_lost :
          (msg event k : Json) (candle : Candle c.D) (s : Ingester c P S) (last : ℕ)
          (msg' event' k' : Json) (candle' : Candle c.D) (candles : List (Candle c.D))
          → event_of msg ≡ ok (event, k)
          → is_closed k ≡ ok true
          → parse_ws_candle c event ≡ ok candle
          → get s.reconnected candle.symbol ≡ some true
          → get s.last_ts candle.symbol ≡ some last
          → last + 2 * minute ≤ candle.ts
          → candle.ts % minute ≡ 0
          → get (fromkeys s.symbols true) candle.symbol ≡ some true
          → event_of msg' ≡ ok (event', k')
          → is_closed k' ≡ ok true
          → parse_ws_candle c event' ≡ ok candle'
          → candle'.symbol ≡ candle.symbol
          → candle.ts < candle'.ts
          → IsSpaced (history candle'.symbol)
          → last_complete_minute_ms candle'.ts
            < timestamp_ms (candle.ts + minute) + suc fuel * min_in_epoch
          → parse_klines c candle'.symbol (gap_rows history candle'.symbol candle.ts candle'.ts)
            ≡ ok candles
          → (s' : Ingester c P S) × (s'' : Ingester c P S) × (handle_msg c broker client
                (suc fuel)
                msg
                s
              ≡ returned s')
            × (handle_msg c broker client' (suc fuel) msg' (on_connected c s') ≡ returned s'')
            × (s''.log ≡ s.log ++ ((candle ∷ candles) ++ (candle' ∷ [])))
            × All (λ x. candle.ts ≤ x.ts) ((candle ∷ candles) ++ (candle' ∷ []))
      unfolding on_connected
      gap_lost msg event k candle s last msg' event' k' candle' candles he hk hp hr hl gap aligned
            known he' hk' hp' same later spaced enough parsed =
          let (s', first, log, symbols, moved) =
            gap_skipped msg event k candle s last he hk hp hr hl (omega arith) in
          let s₁ : Ingester c P S = on_connected c s' in
          let on : get s₁.reconnected candle'.symbol ≡ some true =
            ap (λ (ss : List String). get (fromkeys ss true) candle'.symbol) symbols
            ∙ ap (λ (x : String). get (fromkeys s.symbols true) x) same
            ∙ known in
          let newest : get s₁.last_ts candle'.symbol ≡ some candle.ts =
            ap (λ (x : String). get s'.last_ts x) same ∙ moved in
          let (s'', second, log', _, _) =
            handle_msg_heals c broker reliable client' history honest (suc fuel) msg' event' k'
              candle' s₁ candle.ts candles he' hk' hp' on newest spaced (omega arith) enough aligned
              (omega arith) parsed in
          (
            s',
            s'',
            first,
            second,
            log'
                ∙ ap (λ (l : List (Candle c.D)). l ++ (candles ++ (candle' ∷ []))) log
                ∙ append_assoc s.log (candle ∷ []) (candles ++ (candle' ∷ [])),
            (
              omega arith,
              All-append (λ x. candle.ts ≤ x.ts) candles (candle' ∷ [])
                  (gap_rows_after history candle.ts candle'.ts candle'.symbol candles parsed)
                  (omega arith, tt),
            ),
          )
