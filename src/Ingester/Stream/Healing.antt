-- ===== src/Ingester/Stream/Healing.antt =====
-- After a reconnect the gap is fetched and published before the candle that shows it.
use mathlib.Core.List.{append-nil, append_assoc}
use crypto_market_data_pipel.Prelude.{
  ℕ, ◌+◌, ◌-◌, ◌*◌, ◌/◌, ◌%◌, ◌≤◌, ◌<◌, ◌≡◌, refl, sym, ◌∙◌, ap, true, false, some, List, [], ◌∷◌,
  ◌++◌, ◌==◌, String, length, if◌then◌else◌, arith, Bool-cases, inl, inr, ==_iff,
}
use crypto_market_data_pipel.Common.Errors.{ok}
use crypto_market_data_pipel.Common.Candle.{Candle, minute}
use crypto_market_data_pipel.Common.Dict.{get}
use crypto_market_data_pipel.Common.Json.{Codec, Json}
use crypto_market_data_pipel.Common.Parse.{Kline, parse_ws_candle}
use crypto_market_data_pipel.Backfill.Fetch.{
  Client, fetch_range, parse_klines, last_complete_minute_ms, timestamp_ms, min_in_epoch,
}
use crypto_market_data_pipel.Backfill.Fetch.Pages.{between, IsSpaced, between_empty}
use crypto_market_data_pipel.Backfill.Fetch.Complete.{IsHonest}
use crypto_market_data_pipel.Backfill.Fetch.Range.{
  fetch_range_complete, last_complete_minute_ms_lem,
}
use crypto_market_data_pipel.Ingester.Stream.{
  Producer, Ingester, returned, publish, publish_all, healed, heal_since, is_closed, event_of,
  handle_msg,
}
use crypto_market_data_pipel.Ingester.Stream.Steps.{
  settled, reconnected-publish, handle_msg_reconnected,
}
use crypto_market_data_pipel.Ingester.Stream.Publishing.{
  AlwaysAcks, publish-log, publish_all-log, publish_counts, publish_all_counts,
}

-- The bounds that `_heal_gap` asks for, in milliseconds: from the minute after the last published
-- candle to the minute before the new one.
abbrev pub gap_rows : (String → List Kline) → String → ℕ → ℕ → List Kline
gap_rows history symbol last ts =
    between (timestamp_ms (last + minute)) (last_complete_minute_ms ts) (history symbol)

-- With no minute missing, the gap has no rows.
gap_rows_none :
    (history : String → List Kline) (symbol : String) (last ts : ℕ)
    → last % minute ≡ 0
    → minute ≤ ts
    → (ts - last) / minute - 1 ≡ 0
    → gap_rows history symbol last ts ≡ []
gap_rows_none history symbol last ts aligned late few =
    let (whole, over, recent) = last_complete_minute_ms_lem ts late in
    between_empty _ _ (history symbol) (omega arith)

parse_klines-empty :
    (c : Codec) (symbol : String) (rows : List Kline) (candles : List (Candle c.D))
    → rows ≡ []
    → parse_klines c symbol rows ≡ ok candles
    → candles ≡ []
unfolding parse_klines
parse_klines-empty c symbol rows candles e h = cc (ap (parse_klines c symbol) e)

module _ (c : Codec) {P S : Type 0} (broker : Producer c.Bytes P) (reliable : AlwaysAcks broker)
    (client : Client S) (history : String → List Kline) (honest : IsHonest history client)
    (fuel : ℕ) where
  -- The gap before a candle is healed: its rows are on the topic, and the symbol's flag is as it was.
  record Healed (s : Ingester c P S) (candles : List (Candle c.D)) (s' : Ingester c P S)
      : Type 0 where
    log : s'.log ≡ s.log ++ candles
    kept : s'.kept ≡ s.kept + length candles
    reconnected : s'.reconnected ≡ s.reconnected

  heal_since-Healed :
      (candle : Candle c.D) (s : Ingester c P S) (last : ℕ) (candles : List (Candle c.D))
      → IsSpaced (history candle.symbol)
      → 0 < fuel
      → last_complete_minute_ms candle.ts < timestamp_ms (last + minute) + fuel * min_in_epoch
      → last % minute ≡ 0
      → minute ≤ candle.ts
      → parse_klines c candle.symbol (gap_rows history candle.symbol last candle.ts) ≡ ok candles
      → (s' : Ingester c P S) × (heal_since c broker client fuel candle s (some last) ≡ some s')
        × Healed s candles s'
  heal_since-Healed candle s last candles spaced pos enough aligned late parsed =
      let missing = (candle.ts - last) / minute - 1 in
      let (w, fetched) =
        fetch_range_complete c client history honest candle.symbol spaced fuel (last + minute)
          candle.ts s.world pos enough in
      let reply = fetch_range c fuel client candle.symbol (last + minute) candle.ts s.world in
      let all = publish_all c broker candles (record s { world = w }) in
      elim (Bool-cases (missing == 0)) [
        | inl e ↦
            let few = (==_iff missing 0).0 e in
            let empty =
              parse_klines-empty c candle.symbol (gap_rows history candle.symbol last candle.ts)
                candles (gap_rows_none history candle.symbol last candle.ts aligned late few)
                parsed in
            (
              s,
              ap (λ b. if b then some s else healed c broker s reply) e,
              record {
                log =
                    sym (append-nil s.log) ∙ ap (λ (l : List (Candle c.D)). s.log ++ l) (sym empty);
                kept = omega (arith, ap (λ (l : List (Candle c.D)). length l) empty);
                reconnected = refl;
              },
            )
        | inr e ↦
            let (k, n, r) = publish_all_counts c broker candles (record s { world = w }) in
            (
              record all { kept = all.kept + length candles },
              ap (λ b. if b then some s else healed c broker s reply) e
                  ∙ ap (healed c broker s) (fetched ∙ ap (λ r. some (w, r)) parsed),
              record {
                log = publish_all-log c broker reliable candles (record s { world = w });
                kept = ap (λ (m : ℕ). m + length candles) k;
                reconnected = r;
              },
            )
      ]

  -- After a reconnect, the first closed candle of a symbol first puts every candle of the history
  -- between the last published one and itself on the topic, then itself, and the flag is reset. This
  -- is so for an exchange that serves its history, a producer that acknowledges, times at whole
  -- minutes, rows that parse, and enough rounds for the pages of the gap.
  pub handle_msg_heals :
      (msg event k : Json) (candle : Candle c.D) (s : Ingester c P S) (last : ℕ)
      (candles : List (Candle c.D))
      → event_of msg ≡ ok (event, k)
      → is_closed k ≡ ok true
      → parse_ws_candle c event ≡ ok candle
      → get s.reconnected candle.symbol ≡ some true
      → get s.last_ts candle.symbol ≡ some last
      → IsSpaced (history candle.symbol)
      → 0 < fuel
      → last_complete_minute_ms candle.ts < timestamp_ms (last + minute) + fuel * min_in_epoch
      → last % minute ≡ 0
      → minute ≤ candle.ts
      → parse_klines c candle.symbol (gap_rows history candle.symbol last candle.ts) ≡ ok candles
      → (s' : Ingester c P S) × (handle_msg c broker client fuel msg s ≡ returned s')
        × (s'.log ≡ s.log ++ (candles ++ (candle ∷ [])))
        × (s'.kept ≡ s.kept + 1 + length candles)
        × (get s'.reconnected candle.symbol ≡ some false)
  handle_msg_heals msg event k candle s last candles he hk hp hr hl spaced pos enough aligned late
        parsed =
      let s₁ : Ingester c P S = record s { received = s.received + 1; kept = s.kept + 1 } in
      let (s₂, heals, h) =
        heal_since-Healed candle s₁ last candles spaced pos enough aligned late parsed in
      (
        publish c broker candle (settled c broker candle s₂),
        handle_msg_reconnected c broker client fuel msg event k candle s s₂ last he hk hp hr hl
            heals,
        publish-log c broker reliable candle (settled c broker candle s₂)
            ∙ ap (λ (l : List (Candle c.D)). l ++ (candle ∷ [])) h.log
            ∙ append_assoc s.log candles (candle ∷ []),
        (publish_counts c broker candle (settled c broker candle s₂)).0 ∙ h.kept,
        reconnected-publish c broker candle s₂,
      )
