-- ===== src/Examples/Pipeline.antt =====
-- Instances for the way from the exchange to the table.
use crypto_market_data_pipel.Prelude.{◌*◌, ◌≡◌, refl, List, [], ◌∷◌, map, arith}
use crypto_market_data_pipel.Common.Candle.{Candle, minute}
use crypto_market_data_pipel.Common.Json.{text}
use crypto_market_data_pipel.Common.Parse.{parse_ws_candle, parse_kline, candle_to_json}
use crypto_market_data_pipel.Backfill.Fetch.{parse_klines, last_complete_minute_ms}
use crypto_market_data_pipel.Ingester.Stream.{Ingester, returned, handle_msg}
use crypto_market_data_pipel.Writer.Table.Keys.{row_of, or_else}
use crypto_market_data_pipel.Writer.Table.Replay.{AllStored}
use crypto_market_data_pipel.Writer.Consumer.{State, written, next, round}
use crypto_market_data_pipel.Writer.Consumer.Delivered.{Delivery}
use crypto_market_data_pipel.Pipeline.{round-handle_msg}
use crypto_market_data_pipel.Examples.Ingester.{kline_of, event_with, msg_with, reconnected}
use crypto_market_data_pipel.Examples.Reference.{
  codec, codec-IsFaithful, candle, exchange, exchange-IsHonest, history, broker, broker-AlwaysAcks,
  kafka, Partition,
}

abbrev topic : List (Candle codec.D)
topic = candle 2 ∷ candle 3 ∷ candle 5 ∷ []

-- The table has the minute 2, and the topic the minutes 2, 3 and 5.
abbrev writer : State codec Partition
writer = record {
  consumer = record { behind = []; inflight = []; ahead = map (candle_to_json codec) topic };
  table = candle 2 ∷ [];
  written_count = 1;
  skipped = [];
  slept = 0;
}

abbrev delivery : Delivery codec kafka writer.consumer topic
delivery = record {
  read = _;
  batches = _;
  after = _;
  delivered = refl;
  messages = refl;
  committed = refl;
}

round-handle_msg_example :
    (s : Ingester codec (Unit {0}) (Unit {0})) × (w : State codec Partition) × (handle_msg codec
        broker exchange 9
        (msg_with (text "11"))
        reconnected
      ≡ returned s)
    × (s.log ≡ topic)
    × (round codec kafka written writer ≡ next w)
    × AllStored w.table (candle 3 ∷ candle 5 ∷ [])
    × ((key : Candle codec.D)
        → row_of key w.table ≡ or_else (row_of key writer.table) (row_of key s.log))
unfolding parse_ws_candle parse_klines parse_kline last_complete_minute_ms
round-handle_msg_example =
    round-handle_msg codec codec-IsFaithful broker broker-AlwaysAcks exchange history
      exchange-IsHonest 9 kafka (msg_with (text "11")) (event_with (text "11"))
      (kline_of (text "11")) (candle 5) reconnected (2 * minute) (candle 3 ∷ []) writer refl refl
      refl refl refl (omega arith) (omega arith) (omega arith) refl (omega arith) refl delivery
