-- ===== src/Writer/Consumer/Progress.antt =====
-- The writer comes to the end of the topic once the database takes its writes again.
use mathlib.Core.Path.{subst}
use mathlib.Core.List.{append-nil}
use mathlib.Core.List.{Permᴰ}
use mathlib.Core.List.Permᴰ
use crypto_market_data_pipel.Prelude.{
  ℕ, zero, suc, ◌+◌, ◌-◌, ◌≡◌, ◌≤◌, ◌<◌, refl, sym, ap, ◌∙◌, Bool, true, false, some, List, [], ◌∷◌,
  ◌++◌, length, length-append, All, All-append, arith,
}
use crypto_market_data_pipel.Common.Candle.{Candle}
use crypto_market_data_pipel.Common.Json.{Codec}
use crypto_market_data_pipel.Writer.Consumer.{
  Consumer, Outcome, written, failed, lost, State, Step, next, Parsed, committed, write,
  after_parse, handle_batches, round, run,
}
use crypto_market_data_pipel.Writer.Consumer.Batches.{concat, Stored}
use crypto_market_data_pipel.Writer.Consumer.AtLeastOnce.{IsSafe, SafeStep, run-SafeStep}
use crypto_market_data_pipel.Writer.Consumer.Topic.{
  All-split, All-Permᴰ, length-Permᴰ, Topic, IsReadable, parse_batches-IsReadable, whole,
  whole-getmany, whole-seek, whole-commit,
}

module _ (c : Codec) where
  module _ {B : Type 0} (consumer : Consumer c.Bytes B) (topic : Topic consumer) where
    open topic use {
      offsets, ahead, ahead-getmany, delivers, ahead-seek, ahead-commit, commits, behind-commits,
    }
    open offsets use {
      behind, inflight, behind-getmany, inflight-getmany, behind-seek, inflight-seek,
      inflight-commit,
    }

    -- A part of a round goes on with the same topic, and does not take back a message if it writes.
    abbrev GoesOn : Outcome → B → Step c B → Type 0
    GoesOn outcome b step =
        (s : State c B) × (step ≡ next s)
        × Permᴰ (whole c consumer topic s.consumer) (whole c consumer topic b)
        × (outcome ≡ written → ahead s.consumer ≡ ahead b)

    committed-GoesOn :
        (s : State c B) (inserted : ℕ) (outcome : Outcome)
        → GoesOn outcome s.consumer (committed c consumer s inserted (consumer.commit s.consumer))
    committed-GoesOn s inserted outcome =
        split (consumer.commit s.consumer) (commits s.consumer)
          (whole-commit c consumer topic s.consumer) (ahead-commit s.consumer)
      where
        split :
            (r : B × Bool)
            → r.1 ≡ true
            → whole c consumer topic r.0 ≡ whole c consumer topic s.consumer
            → ahead r.0 ≡ ahead s.consumer
            → GoesOn outcome s.consumer (committed c consumer s inserted r)
        split (b, true) h e a = (
          _,
          refl,
          subst (λ l. Permᴰ (whole c consumer topic b) l) e (Permᴰ.refl (whole c consumer topic b)),
          λ w. a,
        )
        split (b, false) h e a = cc

    write-GoesOn :
        (outcome : Outcome) (candles : List (Candle c.D)) (s : State c B)
        → GoesOn outcome s.consumer (write c consumer outcome candles s)
    unfolding write
    write-GoesOn written candles s = committed-GoesOn _ _ written
    write-GoesOn failed candles s = (_, refl, whole-seek c consumer topic s.consumer, λ w. cc)
    write-GoesOn lost candles s = (_, refl, whole-seek c consumer topic s.consumer, λ w. cc)

    after_parse-GoesOn :
        (outcome : Outcome) (s : State c B) (p : Parsed c)
        → GoesOn outcome s.consumer (after_parse c consumer outcome s (some p))
    after_parse-GoesOn outcome s ([], skipped) =
        (_, refl, Permᴰ.refl (whole c consumer topic s.consumer), λ w. refl)
    after_parse-GoesOn outcome s (k ∷ ks, skipped) = write-GoesOn outcome (k ∷ ks) _

    handle_batches-GoesOn :
        (outcome : Outcome) (s : State c B) (batches : List (List c.Bytes))
        → All (IsReadable c) (concat batches)
        → GoesOn outcome s.consumer (handle_batches c consumer outcome s batches)
    handle_batches-GoesOn outcome s [] h =
        (_, refl, Permᴰ.refl (whole c consumer topic s.consumer), λ w. refl)
    handle_batches-GoesOn outcome s (msgs ∷ rest) h =
        let (p, e) = parse_batches-IsReadable c (msgs ∷ rest) ([], []) h in
        subst (λ q. GoesOn outcome s.consumer (after_parse c consumer outcome s q)) (sym e)
          (after_parse-GoesOn outcome s p)

    -- A round keeps the topic, and one that writes delivers more of it, if there is more.
    abbrev Advances : Outcome → State c B → Step c B → Type 0
    Advances outcome s step =
        (s' : State c B) × (step ≡ next s')
        × Permᴰ (whole c consumer topic s'.consumer) (whole c consumer topic s.consumer)
        × (outcome ≡ written → length (ahead s'.consumer) ≤ length (ahead s.consumer) - 1)

    round-Advances :
        (outcome : Outcome) (s : State c B)
        → All (IsReadable c) (whole c consumer topic s.consumer)
        → Advances outcome s (round c consumer outcome s)
    unfolding round
    round-Advances outcome s h =
        let (b, batches) = consumer.getmany s.consumer in
        let (_, pending) = All-split (IsReadable c) (behind s.consumer) _ h in
        let (_, left) = All-split (IsReadable c) (inflight s.consumer) _ pending in
        let (now, _) =
          All-split (IsReadable c) (concat batches) (ahead b)
            (All-Permᴰ (IsReadable c) (Permᴰ.symm (ahead-getmany s.consumer)) left) in
        let (s', e, same, kept) =
          handle_batches-GoesOn outcome (record s { consumer = b }) batches now in
        let size = length-Permᴰ (ahead-getmany s.consumer) in
        let some_now = delivers s.consumer in
        (
          s',
          e,
          Permᴰ.trans same (whole-getmany c consumer topic s.consumer),
          λ w.
              let rest = ap length (kept w) in
              fewer (length (ahead s.consumer)) (length (concat batches)) (length (ahead b))
                some_now (sym (length-append (concat batches) (ahead b)) ∙ size) rest,
        )
      where
        fewer : {m : ℕ} (n k l : ℕ) → (0 < n → 0 < k) → k + l ≡ n → m ≡ l → m ≤ n - 1
        fewer zero k l h e e' = omega arith
        fewer (suc n) k l h e e' = omega (arith, h (omega arith))

    -- Outcomes that are all `written`.
    abbrev pub writes : ℕ → List Outcome
    writes zero = []
    writes (suc k) = written ∷ writes k

    abbrev Ends : State c B → Step c B → Type 0
    Ends s step =
        (s' : State c B) × (step ≡ next s')
        × Permᴰ (whole c consumer topic s'.consumer) (whole c consumer topic s.consumer)
        × (ahead s'.consumer ≡ [])

    run-next :
        (outcome : Outcome) (rest : List Outcome) (s s' : State c B)
        → round c consumer outcome s ≡ next s'
        → run c consumer (outcome ∷ rest) s ≡ run c consumer rest s'
    unfolding run
    run-next outcome rest s s' e = rw (e, run)

    empty_of_length : {A : Type 0} (l : List A) → length l ≤ 0 → l ≡ []
    empty_of_length [] h = refl
    empty_of_length (x ∷ l) h = absurd (omega arith)

    run-writes :
        (k : ℕ) (s : State c B)
        → All (IsReadable c) (whole c consumer topic s.consumer)
        → length (ahead s.consumer) ≤ k
        → Ends s (run c consumer (writes k) s)
    unfolding run
    run-writes zero s h few = (
      s,
      refl,
      Permᴰ.refl (whole c consumer topic s.consumer),
      empty_of_length (ahead s.consumer) few,
    )
    run-writes (suc k) s h few =
        let (t, e, same, less) = round-Advances written s h in
        let (u, e', same', end) =
          run-writes k t (All-Permᴰ (IsReadable c) (Permᴰ.symm same) h)
            (omega (arith, less refl)) in
        (u, run-next written (writes k) s t e ∙ e', Permᴰ.trans same' same, end)

    -- On a topic whose messages can be read, every run goes on, with the same messages.
    pub run-whole :
        (outcomes : List Outcome) (s : State c B)
        → All (IsReadable c) (whole c consumer topic s.consumer)
        → (s' : State c B) × (run c consumer outcomes s ≡ next s')
          × Permᴰ (whole c consumer topic s'.consumer) (whole c consumer topic s.consumer)
    unfolding run
    run-whole [] s h = (s, refl, Permᴰ.refl (whole c consumer topic s.consumer))
    run-whole (outcome ∷ rest) s h =
        let (t, e, same, _) = round-Advances outcome s h in
        let (u, e', same') = run-whole rest t (All-Permᴰ (IsReadable c) (Permᴰ.symm same) h) in
        (u, run-next outcome rest s t e ∙ e', Permᴰ.trans same' same)

    -- With as many rounds as the topic has messages whose writes go through, no message is left to
    -- deliver, and every candle of the topic is stored.
    pub run-stores_all :
        (k : ℕ) (s : State c B)
        → IsSafe c consumer offsets s
        → All (IsReadable c) (whole c consumer topic s.consumer)
        → length (whole c consumer topic s.consumer) ≤ k
        → (s' : State c B) × (run c consumer (writes k) s ≡ next s')
          × (ahead s'.consumer ≡ [])
          × Stored c s'.table (whole c consumer topic s.consumer)
    run-stores_all k s safe h few =
        let sizes = length-append (behind s.consumer) (inflight s.consumer ++ ahead s.consumer) in
        let left = length-append (inflight s.consumer) (ahead s.consumer) in
        let (s', e, same, end) = run-writes k s h (omega arith) in
        let safe' : IsSafe c consumer offsets s' =
          subst (SafeStep c consumer offsets) e
            (run-SafeStep c consumer offsets (writes k) s safe) in
        let pending =
          subst (λ l. Stored c s'.table (inflight s'.consumer ++ l)) (sym end)
            (subst (Stored c s'.table) (sym (append-nil (inflight s'.consumer))) safe'.pending) in
        (s', e, end, All-Permᴰ _ same (All-append _ (behind s'.consumer) _ safe'.done pending))
