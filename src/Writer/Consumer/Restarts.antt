-- ===== src/Writer/Consumer/Restarts.antt =====
-- The writer over several lives of its process: src/crypto_pipeline/writer/consumer.py with signals,
-- which `run` takes as a cancellation at any of its waits, with exceptions that end it, and with a
-- start after each.
use mathlib.Core.Path.{subst}
use mathlib.Core.List.{Permᴰ}
use mathlib.Core.List.Permᴰ
use crypto_market_data_pipel.Prelude.{ℕ, ◌≡◌, ◌≤◌, sym, some, List, [], length, All, arith}
use crypto_market_data_pipel.Common.Candle.{Candle}
use crypto_market_data_pipel.Common.Json.{Codec}
use crypto_market_data_pipel.Writer.Table.{insert_candles}
use crypto_market_data_pipel.Writer.Consumer.{
  Consumer, Outcome, State, next, raised, parse_batches, run,
}
use crypto_market_data_pipel.Writer.Consumer.Batches.{Stored, Stored-insert_candles}
use crypto_market_data_pipel.Writer.Consumer.AtLeastOnce.{Offsets, IsSafe, SafeStep, run-SafeStep}
use crypto_market_data_pipel.Writer.Consumer.Topic.{
  All-Permᴰ, length-Permᴰ, Topic, IsReadable, whole, whole-getmany, whole-seek,
}
use crypto_market_data_pipel.Writer.Consumer.Progress.{writes, run-whole, run-stores_all}

module _ (c : Codec) {B : Type 0} (consumer : Consumer c.Bytes B) where
  -- A new WriterConsumer over the table as it is. The consumer of a group that starts reads from the
  -- offsets that the group committed.
  abbrev pub started : State c B → State c B
  started s = record {
    consumer = consumer.seek_to_committed s.consumer;
    table = s.table;
    written_count = 0;
    skipped = [];
    slept = 0;
  }

  -- A process that has read its next messages.
  abbrev pub reading : State c B → State c B
  reading s = record s { consumer = (consumer.getmany s.consumer).0 }

  -- The state after some rounds, and after ends and starts of the process: after an exception, between
  -- two rounds, with messages that are read, and with messages whose candles the thread of
  -- `insert_candles` still writes after `run` was cancelled.
  pub data Lives (s : State c B) : State c B → Type 0 where
    here : Lives s s
    runs :
        {t u : State c B} (outcomes : List Outcome)
        → Lives s t
        → run c consumer outcomes t ≡ next u
        → Lives s u
    breaks :
        {t u : State c B} (outcomes : List Outcome)
        → Lives s t
        → run c consumer outcomes t ≡ raised u
        → Lives s (started u)
    stops : {t : State c B} → Lives s t → Lives s (started t)
    stops_reading : {t : State c B} → Lives s t → Lives s (started (reading t))
    stops_writing :
        {t : State c B} (candles : List (Candle c.D)) (skipped : List c.Bytes)
        → Lives s t
        → parse_batches c (consumer.getmany t.consumer).1 ([], []) ≡ some (candles, skipped)
        → Lives s (started (record (reading t) { table = (insert_candles t.table candles).0 }))

  module _ (offsets : Offsets consumer) where
    open offsets use {behind, behind-getmany, behind-seek, inflight-seek}

    started-IsSafe :
        (s : State c B)
        → Stored c s.table (behind s.consumer)
        → IsSafe c consumer offsets (started s)
    started-IsSafe s done = record {
      done = subst (Stored c s.table) (sym (behind-seek s.consumer)) done;
      pending = subst (Stored c s.table) (sym (inflight-seek s.consumer)) tt;
    }

    -- No candle is lost over all lives of the process. From a state in which the candles of every message
    -- behind the committed offsets, and of those delivered since, are stored, the same holds after any
    -- rounds, however their writes and commits went, and any ends and starts of the process, by an
    -- exception or by a signal with messages that are read or while they are written.
    pub Lives-IsSafe :
        {s t : State c B} → Lives s t → IsSafe c consumer offsets s → IsSafe c consumer offsets t
    Lives-IsSafe here safe = safe
    Lives-IsSafe (runs outcomes l e) safe =
        subst (SafeStep c consumer offsets) e
          (run-SafeStep c consumer offsets outcomes _ (Lives-IsSafe l safe))
    Lives-IsSafe (breaks {u} outcomes l e) safe = started-IsSafe u (
        subst (SafeStep c consumer offsets) e
          (run-SafeStep c consumer offsets outcomes _ (Lives-IsSafe l safe)))
    Lives-IsSafe (stops {t} l) safe = let safe' = Lives-IsSafe l safe in started-IsSafe t safe'.done
    Lives-IsSafe (stops_reading {t} l) safe =
        let safe' = Lives-IsSafe l safe in
        started-IsSafe (reading t)
          (subst (Stored c t.table) (sym (behind-getmany t.consumer)) safe'.done)
    Lives-IsSafe (stops_writing {t} candles skipped l e) safe =
        let safe' = Lives-IsSafe l safe in
        let table = (insert_candles t.table candles).0 in
        started-IsSafe (record (reading t) { table = table })
          (subst (Stored c table) (sym (behind-getmany t.consumer))
            (Stored-insert_candles c t.table candles (behind t.consumer) safe'.done))

  module _ (topic : Topic consumer) where
    read_again :
        {msgs : List c.Bytes} (t : State c B)
        → Permᴰ (whole c consumer topic t.consumer) msgs
        → Permᴰ (whole c consumer topic (started (reading t)).consumer) msgs
    read_again t same =
        Permᴰ.trans (whole-seek c consumer topic (reading t).consumer)
          (Permᴰ.trans (whole-getmany c consumer topic t.consumer) same)

    -- The messages of the topic stay.
    Lives-whole :
        {s t : State c B}
        → Lives s t
        → All (IsReadable c) (whole c consumer topic s.consumer)
        → Permᴰ (whole c consumer topic t.consumer) (whole c consumer topic s.consumer)
    Lives-whole {s} here h = Permᴰ.refl (whole c consumer topic s.consumer)
    Lives-whole (runs {t} {u} outcomes l e) h =
        let before = Lives-whole l h in
        let (u', e', same) =
          run-whole c consumer topic outcomes t (All-Permᴰ (IsReadable c) (Permᴰ.symm before) h) in
        let made : u' ≡ u = cc in
        Permᴰ.trans
          (subst
            (λ v. Permᴰ (whole c consumer topic v.consumer) (whole c consumer topic t.consumer))
            made same)
          before
    Lives-whole (breaks {t} outcomes l e) h =
        let before = Lives-whole l h in
        let (u', e', same) =
          run-whole c consumer topic outcomes t (All-Permᴰ (IsReadable c) (Permᴰ.symm before) h) in
        absurd cc
    Lives-whole (stops {t} l) h =
        Permᴰ.trans (whole-seek c consumer topic t.consumer) (Lives-whole l h)
    Lives-whole (stops_reading {t} l) h = read_again t (Lives-whole l h)
    Lives-whole (stops_writing {t} candles skipped l e) h = read_again t (Lives-whole l h)

    -- The writer comes to the end of the topic, over all lives of its process. With a broker that
    -- answers, on a topic whose messages are candles or of the kind that is skipped: however the writes
    -- went and wherever the process was stopped and started again, once as many rounds as the topic has
    -- messages go through, no message is left to deliver, and every candle of the topic is stored.
    pub Lives-stores_all :
        (k : ℕ) {s t : State c B}
        → Lives s t
        → IsSafe c consumer topic.offsets s
        → All (IsReadable c) (whole c consumer topic s.consumer)
        → length (whole c consumer topic s.consumer) ≤ k
        → (u : State c B) × (run c consumer (writes c consumer topic k) t ≡ next u)
          × (topic.ahead u.consumer ≡ [])
          × Stored c u.table (whole c consumer topic s.consumer)
    Lives-stores_all k {s} {t} l safe h few =
        let same = Lives-whole l h in
        let (u, e, end, stored) =
          run-stores_all c consumer topic k t (Lives-IsSafe topic.offsets l safe)
            (All-Permᴰ (IsReadable c) (Permᴰ.symm same) h) (omega (arith, length-Permᴰ same)) in
        (u, e, end, All-Permᴰ _ same stored)
