-- ===== src/Writer/Consumer/Delivered.antt =====
-- Rounds of the writer's loop in which the messages are those of candles.
use crypto_market_data_pipel.Prelude.{
  ◌+◌, ◌≡◌, ◌<◌, refl, sym, ap, ◌∙◌, Bool, true, false, Option, none, some, List, [], ◌∷◌, ◌++◌,
  map, length, arith,
}
use mathlib.Core.List.{append-nil, append_assoc}
use crypto_market_data_pipel.Common.Errors.{Result, ok, err}
use crypto_market_data_pipel.Common.Candle.{Candle}
use crypto_market_data_pipel.Common.Json.{Codec, IsFaithful}
use crypto_market_data_pipel.Common.Parse.{
  candle_to_json, parse_kafka_candle, parse_kafka_candle-candle_to_json,
}
use crypto_market_data_pipel.Writer.Table.{insert_candles}
use crypto_market_data_pipel.Writer.Consumer.{
  Consumer, written, State, next, Parsed, is_caught, committed, after_parse, parse_messages,
  parse_batches, write, handle_batches, round,
}
use crypto_market_data_pipel.Writer.Consumer.Batches.{concat}

-- What the consumer does in a round: it delivers the messages of some candles, and commits them.
pub record Delivery (c : Codec) {B : Type 0} (consumer : Consumer c.Bytes B) (b : B)
    (ks : List (Candle c.D)) : Type 0 where
  pub read : B
  pub batches : List (List c.Bytes)
  pub after : B
  pub delivered : consumer.getmany b ≡ (read, batches)
  pub messages : concat batches ≡ map (candle_to_json c) ks
  pub committed : consumer.commit read ≡ (after, true)

module _ (c : Codec) where
  -- The rest of the messages after one that is refused, or after the message `msg` with its candle.
  abbrev pub on_refused : List c.Bytes → Parsed c → Bool → Option (Parsed c)
  on_refused xs p true = parse_messages c xs p
  on_refused xs p false = none

  abbrev pub on_message :
      List c.Bytes → c.Bytes → Parsed c → Result (Candle c.D) → Option (Parsed c)
  on_message xs msg (candles, skipped) (ok k) = parse_messages c xs (candles ++ (k ∷ []), skipped)
  on_message xs msg (candles, skipped) (err e) =
      on_refused xs (candles, skipped ++ (msg ∷ [])) (is_caught e)

  pub parse_messages-cons :
      (msg : c.Bytes) (xs : List c.Bytes) (p : Parsed c)
      → parse_messages c (msg ∷ xs) p ≡ on_message xs msg p (parse_kafka_candle c msg)
  unfolding parse_messages
  parse_messages-cons msg xs (candles, skipped) = sym (split (parse_kafka_candle c msg))
    where
      skip :
          (b : Bool)
          → on_refused xs (candles, skipped ++ (msg ∷ [])) b
            ≡ elim b [ true ↦ parse_messages c xs (candles, skipped ++ (msg ∷ [])) | false ↦ none ]
      skip true = refl
      skip false = refl

      split :
          (r : Result (Candle c.D))
          → on_message xs msg (candles, skipped) r ≡ elim r [
            | ok candle ↦ parse_messages c xs (candles ++ (candle ∷ []), skipped)
            | err e ↦ elim (is_caught e) [
              | true ↦ parse_messages c xs (candles, skipped ++ (msg ∷ []))
              | false ↦ none
            ]
          ]
      split (ok k) = refl
      split (err e) = skip (is_caught e)

  abbrev parse_after : List c.Bytes → Option (Parsed c) → Option (Parsed c)
  parse_after ys none = none
  parse_after ys (some p) = parse_messages c ys p

  on_refused-append :
      (xs ys : List c.Bytes) (p : Parsed c) (b : Bool)
      → parse_messages c (xs ++ ys) p ≡ parse_after ys (parse_messages c xs p)
      → on_refused (xs ++ ys) p b ≡ parse_after ys (on_refused xs p b)
  on_refused-append xs ys p true e = e
  on_refused-append xs ys p false e = refl

  on_message-append :
      (xs ys : List c.Bytes) (msg : c.Bytes) (p : Parsed c) (r : Result (Candle c.D))
      → ((p : Parsed c) → parse_messages c (xs ++ ys) p ≡ parse_after ys (parse_messages c xs p))
      → on_message (xs ++ ys) msg p r ≡ parse_after ys (on_message xs msg p r)
  on_message-append xs ys msg (candles, skipped) (ok k) ih = ih _
  on_message-append xs ys msg (candles, skipped) (err e) ih =
      on_refused-append xs ys (candles, skipped ++ (msg ∷ [])) (is_caught e) (ih _)

  parse_messages-append :
      (xs ys : List c.Bytes) (p : Parsed c)
      → parse_messages c (xs ++ ys) p ≡ parse_after ys (parse_messages c xs p)
  unfolding parse_messages
  parse_messages-append [] ys (candles, skipped) = refl
  parse_messages-append (msg ∷ xs) ys p =
      parse_messages-cons msg (xs ++ ys) p
      ∙ on_message-append xs ys msg p (parse_kafka_candle c msg) (parse_messages-append xs ys)
      ∙ ap (parse_after ys) (sym (parse_messages-cons msg xs p))

  pub parse_batches-concat :
      (batches : List (List c.Bytes)) (p : Parsed c)
      → parse_batches c batches p ≡ parse_messages c (concat batches) p
  unfolding parse_batches parse_messages
  parse_batches-concat [] (candles, skipped) = refl
  parse_batches-concat (msgs ∷ rest) p =
      after_first rest (parse_messages c msgs p) (parse_batches-concat rest)
      ∙ sym (parse_messages-append msgs (concat rest) p)
    where
      after_first :
          (rest : List (List c.Bytes)) (first : Option (Parsed c))
          → ((p : Parsed c) → parse_batches c rest p ≡ parse_messages c (concat rest) p)
          → elim first [ none ↦ none | some q ↦ parse_batches c rest q ]
            ≡ parse_after (concat rest) first
      after_first rest none ih = refl
      after_first rest (some q) ih = ih q

  module _ (faithful : IsFaithful c) where
    parse_messages-candle_to_json :
        (ks candles : List (Candle c.D)) (skipped : List c.Bytes)
        → parse_messages c (map (candle_to_json c) ks) (candles, skipped)
          ≡ some (candles ++ ks, skipped)
    unfolding parse_messages
    parse_messages-candle_to_json [] candles skipped =
        ap (λ l. some (l, skipped)) (sym (append-nil candles))
    parse_messages-candle_to_json (k ∷ ks) candles skipped =
        rw (parse_kafka_candle-candle_to_json c faithful k, parse_messages)
          (parse_messages-candle_to_json ks (candles ++ (k ∷ [])) skipped
            ∙ ap (λ l. some (l, skipped)) (append_assoc candles (k ∷ []) ks))

    parse_batches-candle_to_json :
        (batches : List (List c.Bytes)) (ks : List (Candle c.D))
        → concat batches ≡ map (candle_to_json c) ks
        → parse_batches c batches ([], []) ≡ some (ks, [])
    parse_batches-candle_to_json batches ks e =
        parse_batches-concat batches ([], [])
        ∙ ap (λ l. parse_messages c l ([], [])) e
        ∙ parse_messages-candle_to_json ks [] []

    module _ {B : Type 0} (consumer : Consumer c.Bytes B) where
      -- A round in which the consumer delivers the messages of some candles, and the write and the
      -- commit go through.
      pub round-candle_to_json :
          (w : State c B) (ks : List (Candle c.D)) (b b' : B) (batches : List (List c.Bytes))
          → 0 < length ks
          → consumer.getmany w.consumer ≡ (b, batches)
          → concat batches ≡ map (candle_to_json c) ks
          → consumer.commit b ≡ (b', true)
          → let (table, inserted) = insert_candles w.table ks in
            round c consumer written w
            ≡ next (record w {
              consumer = b';
              table = table;
              written_count = w.written_count + inserted;
              skipped = w.skipped ++ [];
            })
      unfolding round write
      round-candle_to_json w [] b b' batches some_there delivered e committed' =
          absurd (omega arith)
      round-candle_to_json w (k ∷ ks) b b' [] some_there delivered e committed' = cc
      round-candle_to_json w (k ∷ ks) b b' (msgs ∷ rest) some_there delivered e committed' =
          let (table, inserted) = insert_candles w.table (k ∷ ks) in
          let s = record w { table = table; skipped = w.skipped ++ [] } in
          ap
            (λ (r : B × List (List c.Bytes)).
              handle_batches c consumer written (record w { consumer = r.0 }) r.1)
            delivered
          ∙ ap (after_parse c consumer written (record w { consumer = b }))
              (parse_batches-candle_to_json (msgs ∷ rest) (k ∷ ks) e)
          ∙ ap (committed c consumer (record s { consumer = b }) inserted) committed'
