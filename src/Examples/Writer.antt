-- ===== src/Examples/Writer.antt =====
-- Instances for src/crypto_pipeline/writer.
use crypto_market_data_pipel.Prelude.{
  String, ◌≡◌, refl, ap, ◌∙◌, some, List, [], ◌∷◌, ◌++◌, All, ◌≢◌, arith,
}
use crypto_market_data_pipel.Common.Candle.{Candle}
use crypto_market_data_pipel.Common.Json.{Json, null}
use crypto_market_data_pipel.Common.Parse.{
  candle_to_json, parse_kafka_candle, parse_kafka_candle-candle_to_json,
}
use crypto_market_data_pipel.Writer.Table.{insert_candles}
use crypto_market_data_pipel.Writer.Table.Replay.{insert_candles_replay}
use crypto_market_data_pipel.Writer.Consumer.{
  State, next, written, failed, lost, Parsed, parse_messages, run,
}
use crypto_market_data_pipel.Writer.Consumer.AtLeastOnce.{IsSafe}
use crypto_market_data_pipel.Writer.Consumer.Delivered.{
  on_message, parse_messages-cons, parse_batches-concat,
}
use crypto_market_data_pipel.Writer.Consumer.Restarts.{
  started, reading, Lives, here, stops_reading, stops_writing, Lives-IsSafe, Lives-stores_all,
}
use crypto_market_data_pipel.Writer.Consumer.Counts.{Counted, run-Counted}
use crypto_market_data_pipel.Writer.Consumer.Progress.{writes}
use crypto_market_data_pipel.Writer.Consumer.Batches.{Stored}
use crypto_market_data_pipel.Writer.Consumer.Topic.{IsReadable, whole}
use crypto_market_data_pipel.Examples.Reference.{
  codec, codec-IsFaithful, candle, kafka, offsets, topic, Partition,
}

abbrev stored : List (Candle String)
stored = candle 1 ∷ candle 2 ∷ []

abbrev correction : Candle String
correction = record (candle 2) { close = "99" }

abbrev batch : List (Candle String)
batch = correction ∷ candle 3 ∷ candle 3 ∷ []

-- Only the new minute is inserted, and the stored row is not replaced.
insert_candles_test : insert_candles stored batch ≡ (candle 1 ∷ candle 2 ∷ candle 3 ∷ [], 1)
unfolding insert_candles
insert_candles_test = refl

insert_candles_replay_example :
    insert_candles (insert_candles stored batch).0 batch ≡ ((insert_candles stored batch).0, 0)
insert_candles_replay_example = insert_candles_replay stored batch

-- A malformed message between two candles.
abbrev start : State codec Partition
start = record {
  consumer = record {
    behind = [];
    inflight = [];
    ahead = candle_to_json codec (candle 1) ∷ null ∷ candle_to_json codec (candle 2) ∷ [];
  };
  table = [];
  written_count = 0;
  skipped = [];
  slept = 0;
}

run-Counted_example :
    Counted codec
      (All (λ o. o ≢ lost) (failed ∷ written ∷ []))
      start
      (run codec kafka (failed ∷ written ∷ []) start)
run-Counted_example = run-Counted codec kafka (failed ∷ written ∷ []) start

candle-IsReadable : (k : Candle String) → IsReadable codec (candle_to_json codec k)
candle-IsReadable k e h =
    let read = parse_kafka_candle-candle_to_json codec codec-IsFaithful k in absurd cc

readable : All (IsReadable codec) (whole codec kafka topic start.consumer)
unfolding parse_kafka_candle
readable = (candle-IsReadable (candle 1), ((λ e h. cc), (candle-IsReadable (candle 2), tt)))

-- Stopped with messages that are read, and again while they are written.
abbrev stopped : State codec Partition
stopped = started codec kafka (reading codec kafka start)

abbrev stopped_again : State codec Partition
stopped_again = started codec kafka (record (reading codec kafka stopped) {
  table = (insert_candles [] (candle 1 ∷ candle 2 ∷ [])).0;
})

-- The first message of some is a candle.
read_candle :
    (k : Candle String) (msgs : List Json) (p : Parsed codec)
    → parse_messages codec (candle_to_json codec k ∷ msgs) p
      ≡ parse_messages codec msgs (p.0 ++ (k ∷ []), p.1)
read_candle k msgs p =
    parse_messages-cons codec (candle_to_json codec k) msgs p
    ∙ ap (on_message codec msgs (candle_to_json codec k) p)
        (parse_kafka_candle-candle_to_json codec codec-IsFaithful k)

skip_null :
    (msgs : List Json) (p : Parsed codec)
    → parse_messages codec (null ∷ msgs) p ≡ parse_messages codec msgs (p.0, p.1 ++ (null ∷ []))
unfolding parse_messages parse_kafka_candle
skip_null msgs p = refl

read_all :
    parse_messages codec start.consumer.ahead ([], []) ≡ some (candle 1 ∷ candle 2 ∷ [], null ∷ [])
unfolding parse_messages
read_all =
    read_candle (candle 1) (null ∷ candle_to_json codec (candle 2) ∷ []) ([], [])
    ∙ skip_null (candle_to_json codec (candle 2) ∷ []) (candle 1 ∷ [], [])
    ∙ read_candle (candle 2) [] (candle 1 ∷ [], null ∷ [])

lives : Lives codec kafka start stopped_again
lives =
    stops_writing (candle 1 ∷ candle 2 ∷ []) (null ∷ []) (stops_reading here)
      (parse_batches-concat codec (start.consumer.ahead ∷ []) ([], []) ∙ read_all)

Lives-IsSafe_example : IsSafe codec kafka offsets stopped_again
Lives-IsSafe_example = Lives-IsSafe codec kafka offsets lives (record { done = tt; pending = tt })

Lives-stores_all_example :
    (u : State codec Partition) × (run codec kafka (writes codec kafka topic 3) stopped_again
      ≡ next u)
    × (u.consumer.ahead ≡ [])
    × Stored codec u.table (whole codec kafka topic start.consumer)
Lives-stores_all_example =
    Lives-stores_all codec kafka topic 3 lives (record { done = tt; pending = tt }) readable
      (omega arith)
