-- ===== src/Pipeline.antt =====
-- The way of a candle from the exchange to the table: the ingester's `_handle_msg` and `_heal_gap`, the
-- topic, and the writer's loop. Kafka delivers what was put on the topic, in order.
use crypto_market_data_pipel.Prelude.{
  ℕ, ◌+◌, ◌*◌, ◌%◌, ◌≡◌, ◌≤◌, ◌<◌, sym, ap, ◌∙◌, true, some, List, [], ◌∷◌, ◌++◌, length, String,
  length-append, arith,
}
use crypto_market_data_pipel.Common.Errors.{ok}
use crypto_market_data_pipel.Common.Candle.{Candle, minute}
use crypto_market_data_pipel.Common.Json.{Json, Codec, IsFaithful}
use crypto_market_data_pipel.Common.Parse.{Kline, parse_ws_candle}
use crypto_market_data_pipel.Common.Dict.{get}
use crypto_market_data_pipel.Backfill.Fetch.{
  Client, parse_klines, last_complete_minute_ms, timestamp_ms, min_in_epoch,
}
use crypto_market_data_pipel.Backfill.Fetch.Pages.{IsSpaced}
use crypto_market_data_pipel.Backfill.Fetch.Complete.{IsHonest}
use crypto_market_data_pipel.Ingester.Stream.{
  Producer, Ingester, returned, is_closed, event_of, handle_msg,
}
use crypto_market_data_pipel.Ingester.Stream.Publishing.{AlwaysAcks}
use crypto_market_data_pipel.Ingester.Stream.Healing.{gap_rows, handle_msg_heals}
use crypto_market_data_pipel.Writer.Table.{insert_candles}
use crypto_market_data_pipel.Writer.Table.Keys.{row_of, or_else, row_of-insert_candles}
use crypto_market_data_pipel.Writer.Table.Replay.{AllStored, AllStored-insert_candles}
use crypto_market_data_pipel.Writer.Consumer.{Consumer, written, State, next, round}
use crypto_market_data_pipel.Writer.Consumer.Delivered.{Delivery, round-candle_to_json}

AllStored-append :
    {D : Type 0} (table xs ys : List (Candle D)) → AllStored table (xs ++ ys) → AllStored table ys
AllStored-append table [] ys h = h
AllStored-append table (x ∷ xs) ys h = AllStored-append table xs ys h.1

module _ (c : Codec) (faithful : IsFaithful c) {P S B : Type 0} (broker : Producer c.Bytes P)
    (reliable : AlwaysAcks broker) (client : Client S) (history : String → List Kline)
    (honest : IsHonest history client) (fuel : ℕ) (consumer : Consumer c.Bytes B) where
  -- A gap reaches the table. After a reconnect, when the first closed candle of a symbol shows a gap in
  -- the whole minutes of an honest exchange, with enough rounds and rows that parse: the handler puts
  -- the candles of the gap and this one on the topic behind those that are there; and where the writer
  -- is then given the messages of the topic in a round in which the write and the commit go through, the
  -- table has the key of each of them, and at each key the row that it had, or else the first candle of
  -- the topic with that key.
  pub round-handle_msg :
      (msg event k : Json) (candle : Candle c.D) (s : Ingester c P S) (last : ℕ)
      (candles : List (Candle c.D)) (w : State c B)
      → event_of msg ≡ ok (event, k)
      → is_closed k ≡ ok true
      → parse_ws_candle c event ≡ ok candle
      → get s.reconnected candle.symbol ≡ some true
      → get s.last_ts candle.symbol ≡ some last
      → IsSpaced (history candle.symbol)
      → 0 < fuel
      → last_complete_minute_ms candle.ts < timestamp_ms (last + minute) + fuel * min_in_epoch
      → last % minute ≡ 0
      → minute ≤ candle.ts
      → parse_klines c candle.symbol (gap_rows history candle.symbol last candle.ts) ≡ ok candles
      → Delivery c consumer w.consumer (s.log ++ (candles ++ (candle ∷ [])))
      → (s' : Ingester c P S) × (w' : State c B) × (handle_msg c broker client fuel msg s
          ≡ returned s')
        × (s'.log ≡ s.log ++ (candles ++ (candle ∷ [])))
        × (round c consumer written w ≡ next w')
        × AllStored w'.table (candles ++ (candle ∷ []))
        × ((key : Candle c.D)
            → row_of key w'.table ≡ or_else (row_of key w.table) (row_of key s'.log))
  round-handle_msg msg event k candle s last candles w he hk hp hr hl spaced pos enough aligned late
        parsed d =
      let (s', handled, log, _, _) =
        handle_msg_heals c broker reliable client history honest fuel msg event k candle s last
          candles he hk hp hr hl spaced pos enough aligned late parsed in
      let topic = s.log ++ (candles ++ (candle ∷ [])) in
      let there : 0 < length topic = omega (
        arith,
        length-append s.log (candles ++ (candle ∷ [])),
        length-append candles (candle ∷ []),
      ) in
      (
        s',
        _,
        handled,
        log,
        round-candle_to_json c faithful consumer w topic d.read d.after d.batches there d.delivered
            d.messages d.committed,
        AllStored-append (insert_candles w.table topic).0 s.log (candles ++ (candle ∷ []))
            (AllStored-insert_candles w.table topic),
        λ key.
            row_of-insert_candles key w.table topic
            ∙ ap (λ l. or_else (row_of key w.table) (row_of key l)) (sym log),
      )
