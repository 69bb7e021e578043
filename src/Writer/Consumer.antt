-- ===== src/Writer/Consumer.antt =====
-- src/crypto_pipeline/writer/consumer.py: the loop of `WriterConsumer.run`, over the Kafka consumer
-- as an interface. Restarts has what a signal does.
pub mod Batches
pub mod AtLeastOnce
pub mod Counts
pub mod Delivered
pub mod Topic
pub mod Progress
pub mod Restarts
use crypto_market_data_pipel.Prelude.{
  ℕ, zero, suc, ◌+◌, Bool, true, false, Option, none, some, List, [], ◌∷◌, ◌++◌, length,
}
use crypto_market_data_pipel.Common.Errors.{
  Error, Result, ok, err, value_error, type_error, key_error, invalid_operation,
}
use crypto_market_data_pipel.Common.Candle.{Candle}
use crypto_market_data_pipel.Common.Json.{Codec}
use crypto_market_data_pipel.Common.Parse.{parse_kafka_candle}
use crypto_market_data_pipel.Writer.Table.{insert_candles}

-- The methods of AIOKafkaConsumer that the loop calls, on a state `B` of consumer and broker.
-- `getmany` gives the messages by partition; `commit` may raise.
pub record Consumer (Bytes B : Type 0) : Type 0 where
  pub getmany : B → B × List (List Bytes)
  pub commit : B → B × Bool
  pub seek_to_committed : B → B

-- What a write may meet: it goes through, it fails and is rolled back, or it goes through and the
-- connection is lost before the answer.
pub data Outcome : Type 0 where
  written failed lost : Outcome

abbrev pub retry_delay : ℕ
retry_delay = 5

-- The exceptions that the loop takes for a malformed message.
abbrev pub is_caught : Error → Bool
is_caught value_error = true
is_caught type_error = true
is_caught key_error = true
is_caught invalid_operation = true
is_caught _ = false

module _ (c : Codec) where
  -- The state of the loop, with the table, the messages that were logged as malformed and the
  -- seconds slept.
  pub record State (B : Type 0) : Type 0 where
    pub consumer : B
    pub table : List (Candle c.D)
    pub written_count : ℕ
    pub skipped : List c.Bytes
    pub slept : ℕ

  -- The loop goes on, or an exception leaves it.
  pub data Step (B : Type 0) : Type 0 where
    next : State B → Step B
    raised : State B → Step B

  -- The candles and the malformed messages of the batch so far.
  abbrev pub Parsed : Type 0
  Parsed = List (Candle c.D) × List c.Bytes

  -- `for msg in messages: try: candles.append(parse_kafka_candle(msg.value)) except …`; `none` is an
  -- exception that is not caught.
  unfoldable pub parse_messages : List c.Bytes → Parsed → Option Parsed
  parse_messages [] (candles, skipped) = some (candles, skipped)
  parse_messages (msg ∷ rest) (candles, skipped) = elim (parse_kafka_candle c msg) [
    | ok candle ↦ parse_messages rest (candles ++ (candle ∷ []), skipped)
    | err e ↦ elim (is_caught e) [
      | true ↦ parse_messages rest (candles, skipped ++ (msg ∷ []))
      | false ↦ none
    ]
  ]

  -- `for messages in batches.values(): …`
  unfoldable pub parse_batches : List (List c.Bytes) → Parsed → Option Parsed
  parse_batches [] parsed = some parsed
  parse_batches (messages ∷ rest) parsed = elim (parse_messages messages parsed) [
    | none ↦ none
    | some parsed' ↦ parse_batches rest parsed'
  ]

  module _ {B : Type 0} (consumer : Consumer c.Bytes B) where
    abbrev pub committed : State B → ℕ → B × Bool → Step B
    committed s inserted (b, true) =
        next (record s { consumer = b; written_count = s.written_count + inserted })
    committed s inserted (b, false) = raised (record s { consumer = b })

    -- `insert_candles`, then the commit; on an exception of the write, back to the last commit.
    unfoldable pub write : Outcome → List (Candle c.D) → State B → Step B
    write written candles s =
        let (table, inserted) = insert_candles s.table candles in
        committed (record s { table = table }) inserted (consumer.commit s.consumer)
    write failed candles s = next (record s {
      consumer = consumer.seek_to_committed s.consumer;
      slept = s.slept + retry_delay;
    })
    write lost candles s = next (record s {
      table = (insert_candles s.table candles).0;
      consumer = consumer.seek_to_committed s.consumer;
      slept = s.slept + retry_delay;
    })

    abbrev pub after_parse : Outcome → State B → Option Parsed → Step B
    after_parse outcome s none = raised s
    after_parse outcome s (some ([], skipped)) = next (record s { skipped = s.skipped ++ skipped })
    after_parse outcome s (some (candle ∷ candles, skipped)) =
        write outcome (candle ∷ candles) (record s { skipped = s.skipped ++ skipped })

    abbrev pub handle_batches : Outcome → State B → List (List c.Bytes) → Step B
    handle_batches outcome s [] = next s
    handle_batches outcome s (messages ∷ rest) =
        after_parse outcome s (parse_batches (messages ∷ rest) ([], []))

    -- One round of `while True`.
    unfoldable pub round : Outcome → State B → Step B
    round outcome s =
        let (b, batches) = consumer.getmany s.consumer in
        handle_batches outcome (record s { consumer = b }) batches

    -- The rounds of a run, with what the database does in each.
    unfoldable pub run : List Outcome → State B → Step B
    run [] s = next s
    run (outcome ∷ rest) s = elim (round outcome s) [
      | next s' ↦ run rest s'
      | raised s' ↦ raised s'
    ]
