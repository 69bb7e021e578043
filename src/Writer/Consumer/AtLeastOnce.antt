-- ===== src/Writer/Consumer/AtLeastOnce.antt =====
-- At-least-once delivery: no message is behind the committed offsets before its candle is stored.
use mathlib.Core.Path.{subst}
use crypto_market_data_pipel.Prelude.{
  ℕ, ◌≡◌, refl, sym, ◌⊎◌, inl, inr, Bool, true, false, Option, none, some, List, [], ◌∷◌, ◌++◌,
  All-append,
}
use crypto_market_data_pipel.Common.Candle.{Candle}
use crypto_market_data_pipel.Common.Json.{Codec}
use crypto_market_data_pipel.Writer.Table.{insert_candles}
use crypto_market_data_pipel.Writer.Table.Replay.{AllStored-insert_candles}
use crypto_market_data_pipel.Writer.Consumer.{
  Consumer, Outcome, written, failed, lost, State, Step, next, raised, Parsed, committed, write,
  after_parse, handle_batches, round, run,
}
use crypto_market_data_pipel.Writer.Consumer.Batches.{
  concat, Stored, Stored-insert_candles, Covers, Covers-parse_batches,
}

-- The documented behaviour of the Kafka consumer, by two lists of messages: those behind the
-- committed offsets, and those delivered since. A commit that raises may still have happened.
pub record Offsets {Bytes B : Type 0} (k : Consumer Bytes B) : Type 0 where
  pub behind : B → List Bytes
  pub inflight : B → List Bytes
  pub behind-getmany : (b : B) → behind (k.getmany b).0 ≡ behind b
  pub inflight-getmany : (b : B) → inflight (k.getmany b).0 ≡ inflight b ++ concat (k.getmany b).1
  pub behind-seek : (b : B) → behind (k.seek_to_committed b) ≡ behind b
  pub inflight-seek : (b : B) → inflight (k.seek_to_committed b) ≡ []
  pub inflight-commit : (b : B) → (k.commit b).1 ≡ true → inflight (k.commit b).0 ≡ []
  pub behind-commit :
      (b : B)
      → (behind (k.commit b).0 ≡ behind b) ⊎ (behind (k.commit b).0 ≡ behind b ++ inflight b)

module _ (c : Codec) where
  module _ {B : Type 0} (consumer : Consumer c.Bytes B) (offsets : Offsets consumer) where
    open offsets use {
      behind, inflight, behind-getmany, inflight-getmany, behind-seek, inflight-seek,
      inflight-commit, behind-commit,
    }

    -- The candles of all messages behind the committed offsets are stored, and so are those of the
    -- messages delivered since.
    pub record IsSafe (s : State c B) : Type 0 where
      pub done : Stored c s.table (behind s.consumer)
      pub pending : Stored c s.table (inflight s.consumer)

    -- What a round leaves, whether it goes on or an exception leaves the loop.
    abbrev pub SafeStep : Step c B → Type 0
    SafeStep (next s) = IsSafe s
    SafeStep (raised s) = Stored c s.table (behind s.consumer)

    committed-SafeStep :
        (s : State c B) (inserted : ℕ)
        → Stored c s.table (behind s.consumer)
        → Stored c s.table (inflight s.consumer)
        → SafeStep (committed c consumer s inserted (consumer.commit s.consumer))
    committed-SafeStep s inserted done pending =
        split (consumer.commit s.consumer) (inflight-commit s.consumer)
          (moved (behind-commit s.consumer))
      where
        moved :
            {b : B}
            → (behind b ≡ behind s.consumer) ⊎ (behind b ≡ behind s.consumer ++ inflight s.consumer)
            → Stored c s.table (behind b)
        moved (inl e) = subst (Stored c s.table) (sym e) done
        moved (inr e) = subst (Stored c s.table) (sym e) (All-append _ _ _ done pending)

        split :
            (r : B × Bool)
            → (r.1 ≡ true → inflight r.0 ≡ [])
            → Stored c s.table (behind r.0)
            → SafeStep (committed c consumer s inserted r)
        split (b, true) empty h = record {
          done = h;
          pending = subst (Stored c s.table) (sym (empty refl)) tt;
        }
        split (b, false) empty h = h

    write-SafeStep :
        (outcome : Outcome) (candles : List (Candle c.D)) (s : State c B)
        → Stored c s.table (behind s.consumer)
        → Stored c (insert_candles s.table candles).0 (inflight s.consumer)
        → SafeStep (write c consumer outcome candles s)
    unfolding write
    write-SafeStep written candles s done pending =
        let table = (insert_candles s.table candles).0 in
        committed-SafeStep (record s { table = table }) (insert_candles s.table candles).1
          (Stored-insert_candles c s.table candles (behind s.consumer) done) pending
    write-SafeStep failed candles s done pending = record {
      done = subst (Stored c s.table) (sym (behind-seek s.consumer)) done;
      pending = subst (Stored c s.table) (sym (inflight-seek s.consumer)) tt;
    }
    write-SafeStep lost candles s done pending =
        let table = (insert_candles s.table candles).0 in
        record {
          done =
              subst (Stored c table) (sym (behind-seek s.consumer))
                (Stored-insert_candles c s.table candles (behind s.consumer) done);
          pending = subst (Stored c table) (sym (inflight-seek s.consumer)) tt;
        }

    after_parse-SafeStep :
        (outcome : Outcome) (s : State c B) (before batch : List c.Bytes)
        (parsed : Option (Parsed c))
        → inflight s.consumer ≡ before ++ batch
        → Stored c s.table (behind s.consumer)
        → Stored c s.table before
        → ((table : List (Candle c.D)) → Covers c table batch [] parsed)
        → SafeStep (after_parse c consumer outcome s parsed)
    after_parse-SafeStep outcome s before batch none e done old covers = done
    after_parse-SafeStep outcome s before batch (some ([], skipped)) e done old covers = record {
      done = done;
      pending =
          subst (Stored c s.table) (sym e)
            (All-append _ before batch old (covers s.table [] skipped refl tt).1);
    }
    after_parse-SafeStep outcome s before batch (some (candle ∷ candles, skipped)) e done old
          covers =
        let table = (insert_candles s.table (candle ∷ candles)).0 in
        let stored = AllStored-insert_candles s.table (candle ∷ candles) in
        write-SafeStep outcome (candle ∷ candles) (record s { skipped = s.skipped ++ skipped }) done
          (subst (Stored c table) (sym e) (
            All-append _ before batch
              (Stored-insert_candles c s.table (candle ∷ candles) before old)
              (covers table (candle ∷ candles) skipped refl stored).1))

    handle_batches-SafeStep :
        (outcome : Outcome) (s : State c B) (before : List c.Bytes) (batches : List (List c.Bytes))
        → inflight s.consumer ≡ before ++ concat batches
        → Stored c s.table (behind s.consumer)
        → Stored c s.table before
        → SafeStep (handle_batches c consumer outcome s batches)
    handle_batches-SafeStep outcome s before [] e done old = record {
      done = done;
      pending = subst (Stored c s.table) (sym e) (All-append _ before [] old tt);
    }
    handle_batches-SafeStep outcome s before (msgs ∷ rest) e done old =
        after_parse-SafeStep outcome s before (concat (msgs ∷ rest)) _ e done old
          (λ table. Covers-parse_batches c table (msgs ∷ rest) [] [])

    round-SafeStep :
        (outcome : Outcome) (s : State c B) → IsSafe s → SafeStep (round c consumer outcome s)
    unfolding round
    round-SafeStep outcome s safe =
        handle_batches-SafeStep outcome (record s { consumer = (consumer.getmany s.consumer).0 })
          (inflight s.consumer) (consumer.getmany s.consumer).1 (inflight-getmany s.consumer)
          (subst (Stored c s.table) (sym (behind-getmany s.consumer)) safe.done) safe.pending

    -- Whatever the database and the broker do in each round, and also when an exception ends the run:
    -- every candle in a message behind the committed offsets is stored.
    pub run-SafeStep :
        (outcomes : List Outcome) (s : State c B) → IsSafe s → SafeStep (run c consumer outcomes s)
    unfolding run
    run-SafeStep [] s safe = safe
    run-SafeStep (outcome ∷ rest) s safe =
        split (run-SafeStep rest) (round c consumer outcome s) (round-SafeStep outcome s safe)
      where
        split :
            ((s : State c B) → IsSafe s → SafeStep (run c consumer rest s))
            → (step : Step c B) → SafeStep step
            → SafeStep (elim step [ next s' ↦ run c consumer rest s' | raised s' ↦ raised s' ])
        split ih (next s') h = ih s' h
        split ih (raised s') h = h
