-- ===== src/Writer/Consumer/Counts.antt =====
-- The counter of the written rows against the table.
use crypto_market_data_pipel.Prelude.{
  ℕ, ◌+◌, ◌++◌, ◌≡◌, ◌≢◌, ◌≤◌, refl, ap, Bool, true, false, Option, none, some, List, [], ◌∷◌,
  length, length-append, arith, All,
}
use crypto_market_data_pipel.Common.Candle.{Candle}
use crypto_market_data_pipel.Common.Json.{Codec}
use crypto_market_data_pipel.Writer.Table.{insert_candles}
use crypto_market_data_pipel.Writer.Table.Replay.{insert_candles_extends}
use crypto_market_data_pipel.Writer.Consumer.{
  Consumer, Outcome, written, failed, lost, State, Step, next, raised, Parsed, committed, write,
  after_parse, parse_batches, handle_batches, round, run,
}

insert_candles-length :
    {D : Type 0} (table candles : List (Candle D))
    → length (insert_candles table candles).0 ≡ length table + (insert_candles table candles).1
insert_candles-length {D} table candles =
    let (new, e, k, _) = insert_candles_extends table candles in
    omega (arith, ap (λ (t : List (Candle D)). length t) e, length-append table new)

module _ (c : Codec) {B : Type 0} where
  -- Since a state, no more rows were counted than were added, and as many if nothing was lost.
  abbrev pub Counted : Type 0 → State c B → Step c B → Type 0
  Counted Kept s (next s') =
      (length s.table + s'.written_count ≤ length s'.table + s.written_count)
      × (Kept → length s.table + s'.written_count ≡ length s'.table + s.written_count)
  Counted Kept s (raised s') = length s.table + s'.written_count ≤ length s'.table + s.written_count

  module _ (consumer : Consumer c.Bytes B) where
    committed-Counted :
        (s : State c B) (table : List (Candle c.D)) (inserted : ℕ) (Kept : Type 0) (r : B × Bool)
        → length table ≡ length s.table + inserted
        → Counted Kept s (committed c consumer (record s { table = table }) inserted r)
    committed-Counted s table inserted Kept (b, true) e = (omega arith, λ k. omega arith)
    committed-Counted s table inserted Kept (b, false) e = omega arith

    write-Counted :
        (outcome : Outcome) (candles : List (Candle c.D)) (s : State c B)
        → Counted (outcome ≢ lost) s (write c consumer outcome candles s)
    unfolding write
    write-Counted written candles s =
        committed-Counted s (insert_candles s.table candles).0 (insert_candles s.table candles).1
          (written ≢ lost) (consumer.commit s.consumer) (insert_candles-length s.table candles)
    write-Counted failed candles s = (omega arith, λ k. omega arith)
    write-Counted lost candles s =
        let longer = insert_candles-length s.table candles in (omega arith, λ k. absurd (k refl))

    after_parse-Counted :
        (outcome : Outcome) (s : State c B) (parsed : Option (Parsed c))
        → Counted (outcome ≢ lost) s (after_parse c consumer outcome s parsed)
    after_parse-Counted outcome s none = omega arith
    after_parse-Counted outcome s (some ([], skipped)) = (omega arith, λ k. omega arith)
    after_parse-Counted outcome s (some (candle ∷ candles, skipped)) =
        write-Counted outcome (candle ∷ candles) (record s { skipped = s.skipped ++ skipped })

    handle_batches-Counted :
        (outcome : Outcome) (s : State c B) (batches : List (List c.Bytes))
        → Counted (outcome ≢ lost) s (handle_batches c consumer outcome s batches)
    handle_batches-Counted outcome s [] = (omega arith, λ k. omega arith)
    handle_batches-Counted outcome s (msgs ∷ rest) =
        after_parse-Counted outcome s (parse_batches c (msgs ∷ rest) ([], []))

    round-Counted :
        (outcome : Outcome) (s : State c B)
        → Counted (outcome ≢ lost) s (round c consumer outcome s)
    unfolding round
    round-Counted outcome s =
        let (b, batches) = consumer.getmany s.consumer in
        handle_batches-Counted outcome (record s { consumer = b }) batches

    Counted-trans :
        (K L : Type 0) (s s' : State c B) (step : Step c B)
        → Counted K s (next s')
        → Counted L s' step
        → Counted (K × L) s step
    Counted-trans K L s s' (next t) (le, eq) (le', eq') =
        (omega arith, λ k. omega (arith, eq k.0, eq' k.1))
    Counted-trans K L s s' (raised t) (le, eq) le' = omega arith

    -- Whatever comes of the rounds, `written` has grown by no more than the rows that were added to
    -- the table; and by exactly as many where the run comes through its rounds and each write is
    -- answered.
    pub run-Counted :
        (outcomes : List Outcome) (s : State c B)
        → Counted (All (λ o. o ≢ lost) outcomes) s (run c consumer outcomes s)
    unfolding run
    run-Counted [] s = (omega arith, λ k. omega arith)
    run-Counted (outcome ∷ rest) s =
        split (run-Counted rest) (round c consumer outcome s) (round-Counted outcome s)
      where
        split :
            ((s : State c B) → Counted (All (λ o. o ≢ lost) rest) s (run c consumer rest s))
            → (step : Step c B) → Counted (outcome ≢ lost) s step
            → Counted
                (All (λ o. o ≢ lost) (outcome ∷ rest))
                s
                (elim step [ next s' ↦ run c consumer rest s' | raised s' ↦ raised s' ])
        split ih (next s') h =
            Counted-trans (outcome ≢ lost) (All (λ o. o ≢ lost) rest) s s' _ h (ih s')
        split ih (raised s') h = h
