-- ===== src/Writer/Consumer/Batches.antt =====
-- What the messages of a batch owe to the table.
use mathlib.Core.Path.{subst}
use crypto_market_data_pipel.Prelude.{
  ◌≡◌, refl, Bool, true, false, Option, none, some, List, [], ◌∷◌, ◌++◌, All, All-append, All-imp,
}
use crypto_market_data_pipel.Common.Errors.{Error, Result, ok, err}
use crypto_market_data_pipel.Common.Candle.{Candle}
use crypto_market_data_pipel.Common.Json.{Codec}
use crypto_market_data_pipel.Common.Parse.{parse_kafka_candle}
use crypto_market_data_pipel.Writer.Table.{has_key, insert_candles}
use crypto_market_data_pipel.Writer.Table.Replay.{AllStored, has_key-insert_candles}
use crypto_market_data_pipel.Writer.Consumer.{Parsed, is_caught, parse_messages, parse_batches}

abbrev pub concat {ℓ} : {A : Type ℓ} → List (List A) → List A
concat [] = []
concat (xs ∷ xss) = xs ++ concat xss

module _ (c : Codec) where
  -- Of each message that holds a candle, the table has the candle's key.
  abbrev pub Stored : List (Candle c.D) → List c.Bytes → Type 0
  Stored table =
      All (λ msg. (k : Candle c.D) → parse_kafka_candle c msg ≡ ok k → has_key k table ≡ true)

  pub Stored-insert_candles :
      (table candles : List (Candle c.D)) (msgs : List c.Bytes)
      → Stored table msgs
      → Stored (insert_candles table candles).0 msgs
  Stored-insert_candles table candles msgs =
      All-imp _ _ msgs (λ msg h k e. has_key-insert_candles k table candles (h k e))

  AllStored-split :
      (table xs ys : List (Candle c.D))
      → AllStored table (xs ++ ys)
      → AllStored table xs × AllStored table ys
  AllStored-split table [] ys h = (tt, h)
  AllStored-split table (x ∷ xs) ys h =
      let (hx, hy) = AllStored-split table xs ys h.1 in ((h.0, hx), hy)

  -- If the batch's candles are in the table, so are those of the messages that were read, and of
  -- the candles that the batch held before them.
  abbrev pub Covers :
      List (Candle c.D) → List c.Bytes → List (Candle c.D) → Option (Parsed c) → Type 0
  Covers table msgs candles parsed =
      (candles' : List (Candle c.D)) (skipped' : List c.Bytes)
      → parsed ≡ some (candles', skipped')
      → AllStored table candles'
      → AllStored table candles × Stored table msgs

  Covers-refl :
      (table candles : List (Candle c.D)) (skipped : List c.Bytes)
      → Covers table [] candles (some (candles, skipped))
  Covers-refl table candles skipped candles' skipped' e h =
      let same : candles' ≡ candles = cc in (subst (AllStored table) same h, tt)

  Covers-parse_messages :
      (table : List (Candle c.D)) (msgs : List c.Bytes) (candles : List (Candle c.D))
      (skipped : List c.Bytes)
      → Covers table msgs candles (parse_messages c msgs (candles, skipped))
  unfolding parse_messages
  Covers-parse_messages table [] candles skipped = Covers-refl table candles skipped
  Covers-parse_messages table (msg ∷ msgs) candles skipped =
      split (λ k. Covers-parse_messages table msgs (candles ++ (k ∷ [])) skipped)
        (Covers-parse_messages table msgs candles (skipped ++ (msg ∷ [])))
        (parse_kafka_candle c msg) refl
    where
      refused :
          (x : Error) (b : Bool)
          → parse_kafka_candle c msg ≡ err x
          → Covers table msgs candles (parse_messages c msgs (candles, skipped ++ (msg ∷ [])))
          → Covers table (msg ∷ msgs) candles (elim b [
            | true ↦ parse_messages c msgs (candles, skipped ++ (msg ∷ []))
            | false ↦ none
          ])
      refused x true p bad candles' skipped' e h =
          let (before, rest) = bad candles' skipped' e h in (before, (λ k q. cc, rest))
      refused x false p bad candles' skipped' e h = cc

      split :
          ((k : Candle c.D)
            → Covers table msgs
                (candles ++ (k ∷ []))
                (parse_messages c msgs (candles ++ (k ∷ []), skipped)))
          → Covers table msgs candles (parse_messages c msgs (candles, skipped ++ (msg ∷ [])))
          → (r : Result (Candle c.D)) → parse_kafka_candle c msg ≡ r
          → Covers table (msg ∷ msgs) candles (elim r [
            | ok candle ↦ parse_messages c msgs (candles ++ (candle ∷ []), skipped)
            | err e ↦ elim (is_caught e) [
              | true ↦ parse_messages c msgs (candles, skipped ++ (msg ∷ []))
              | false ↦ none
            ]
          ])
      split good bad (ok k) p candles' skipped' e h =
          let (stored, rest) = good k candles' skipped' e h in
          let (before, this) = AllStored-split table candles (k ∷ []) stored in
          (
            before,
            (
              λ k' q. let same : k ≡ k' = cc in subst (λ x. has_key x table ≡ true) same this.0,
              rest,
            ),
          )
      split good bad (err x) p candles' skipped' e h =
          refused x (is_caught x) p bad candles' skipped' e h

  pub Covers-parse_batches :
      (table : List (Candle c.D)) (batches : List (List c.Bytes)) (candles : List (Candle c.D))
      (skipped : List c.Bytes)
      → Covers table (concat batches) candles (parse_batches c batches (candles, skipped))
  unfolding parse_batches
  Covers-parse_batches table [] candles skipped = Covers-refl table candles skipped
  Covers-parse_batches table (msgs ∷ rest) candles skipped =
      split (Covers-parse_batches table rest) (parse_messages c msgs (candles, skipped))
        (Covers-parse_messages table msgs candles skipped)
    where
      split :
          ((candles : List (Candle c.D)) (skipped : List c.Bytes)
            → Covers table (concat rest) candles (parse_batches c rest (candles, skipped)))
          → (parsed : Option (Parsed c)) → Covers table msgs candles parsed
          → Covers table
              (msgs ++ concat rest)
              candles
              (elim parsed [ none ↦ none | some parsed' ↦ parse_batches c rest parsed' ])
      split later none first candles' skipped' e h = cc
      split later (some (candles₁, skipped₁)) first candles' skipped' e h =
          let (mid, after) = later candles₁ skipped₁ candles' skipped' e h in
          let (before, this) = first candles₁ skipped₁ refl mid in
          (before, All-append _ msgs (concat rest) this after)
