-- ===== src/Writer/Consumer/Topic.antt =====
-- What the broker keeps for the writer: the messages behind the committed offsets, those delivered
-- since, and those that are not delivered.
use mathlib.Core.Path.{subst}
use mathlib.Core.List.{append_assoc}
use mathlib.Core.List.{Permᴰ}
use mathlib.Core.List.Permᴰ
use crypto_market_data_pipel.Prelude.{
  suc, ◌≡◌, ◌<◌, refl, sym, ap, ◌∙◌, true, some, List, [], ◌∷◌, ◌++◌, length, All,
}
use crypto_market_data_pipel.Common.Errors.{Error, Result, ok, err}
use crypto_market_data_pipel.Common.Candle.{Candle}
use crypto_market_data_pipel.Common.Json.{Codec}
use crypto_market_data_pipel.Common.Parse.{parse_kafka_candle}
use crypto_market_data_pipel.Writer.Consumer.{
  Consumer, Parsed, is_caught, parse_messages, parse_batches,
}
use crypto_market_data_pipel.Writer.Consumer.Batches.{concat}
use crypto_market_data_pipel.Writer.Consumer.AtLeastOnce.{Offsets}
use crypto_market_data_pipel.Writer.Consumer.Delivered.{
  on_message, parse_messages-cons, parse_batches-concat,
}

module _ {ℓ} {A : Type ℓ} where
  pub All-split {κ} : (P : A → Type κ) (xs ys : List A) → All P (xs ++ ys) → All P xs × All P ys
  All-split P [] ys h = (tt, h)
  All-split P (x ∷ xs) ys h = let (hx, hy) = All-split P xs ys h.1 in ((h.0, hx), hy)

  pub All-Permᴰ {κ} : (P : A → Type κ) {xs ys : List A} → Permᴰ xs ys → All P xs → All P ys
  All-Permᴰ P Permᴰ.nil h = tt
  All-Permᴰ P (Permᴰ.cons e p) (h, hs) = (subst P e h, All-Permᴰ P p hs)
  All-Permᴰ P (Permᴰ.swap e e') (h, (h', hs)) = (subst P e' h', (subst P e h, hs))
  All-Permᴰ P (Permᴰ.trans p q) h = All-Permᴰ P q (All-Permᴰ P p h)

  pub length-Permᴰ : {xs ys : List A} → Permᴰ xs ys → length xs ≡ length ys
  length-Permᴰ Permᴰ.nil = refl
  length-Permᴰ (Permᴰ.cons e p) = ap suc (length-Permᴰ p)
  length-Permᴰ (Permᴰ.swap e e') = refl
  length-Permᴰ (Permᴰ.trans p q) = length-Permᴰ p ∙ length-Permᴰ q

-- The documented behaviour of a broker that answers: beside the offsets, the messages that are not
-- delivered. `getmany` delivers some of them if there are any, a seek makes those that were not committed
-- deliverable again, and a commit takes effect. Between partitions there is no order.
pub record Topic {Bytes B : Type 0} (k : Consumer Bytes B) : Type 0 where
  pub offsets : Offsets k
  pub ahead : B → List Bytes
  pub ahead-getmany : (b : B) → Permᴰ (concat (k.getmany b).1 ++ ahead (k.getmany b).0) (ahead b)
  pub delivers : (b : B) → 0 < length (ahead b) → 0 < length (concat (k.getmany b).1)
  pub ahead-seek : (b : B) → Permᴰ (ahead (k.seek_to_committed b)) (offsets.inflight b ++ ahead b)
  pub ahead-commit : (b : B) → ahead (k.commit b).0 ≡ ahead b
  pub commits : (b : B) → (k.commit b).1 ≡ true
  pub behind-commits :
      (b : B) → offsets.behind (k.commit b).0 ≡ offsets.behind b ++ offsets.inflight b

module _ (c : Codec) where
  -- A message that does not end the writer: a candle, or one that is skipped.
  abbrev pub IsReadable : c.Bytes → Type 0
  IsReadable msg = (e : Error) → parse_kafka_candle c msg ≡ err e → is_caught e ≡ true

  pub parse_messages-IsReadable :
      (msgs : List c.Bytes) (p : Parsed c)
      → All IsReadable msgs
      → (q : Parsed c) × (parse_messages c msgs p ≡ some q)
  unfolding parse_messages
  parse_messages-IsReadable [] (candles, skipped) h = (_, refl)
  parse_messages-IsReadable (msg ∷ msgs) (candles, skipped) (h, hs) =
      let (q, e) = split (λ p. parse_messages-IsReadable msgs p hs) (parse_kafka_candle c msg) h in
      (q, parse_messages-cons c msg msgs (candles, skipped) ∙ e)
    where
      split :
          ((p : Parsed c) → (q : Parsed c) × (parse_messages c msgs p ≡ some q))
          → (r : Result (Candle c.D)) → ((e : Error) → r ≡ err e → is_caught e ≡ true)
          → (q : Parsed c) × (on_message c msgs msg (candles, skipped) r ≡ some q)
      split ih (ok k) h' = ih _
      split ih (err e) h' =
          let (q, found) = ih (candles, skipped ++ (msg ∷ [])) in (q, rw (h' e refl) found)

  pub parse_batches-IsReadable :
      (batches : List (List c.Bytes)) (p : Parsed c)
      → All IsReadable (concat batches)
      → (q : Parsed c) × (parse_batches c batches p ≡ some q)
  parse_batches-IsReadable batches p h =
      let (q, e) = parse_messages-IsReadable (concat batches) p h in
      (q, parse_batches-concat c batches p ∙ e)

  module _ {B : Type 0} (consumer : Consumer c.Bytes B) (topic : Topic consumer) where
    open topic use {
      offsets, ahead, ahead-getmany, delivers, ahead-seek, ahead-commit, commits, behind-commits,
    }
    open offsets use {
      behind, inflight, behind-getmany, inflight-getmany, behind-seek, inflight-seek,
      inflight-commit,
    }

    -- The messages of the topic.
    abbrev pub whole : B → List c.Bytes
    whole b = behind b ++ (inflight b ++ ahead b)

    pub whole-getmany : (b : B) → Permᴰ (whole (consumer.getmany b).0) (whole b)
    whole-getmany b =
        let b' = (consumer.getmany b).0 in
        let more = concat (consumer.getmany b).1 in
        let e : whole b' ≡ behind b ++ (inflight b ++ (more ++ ahead b')) =
          ap (λ l. l ++ (inflight b' ++ ahead b')) (behind-getmany b)
          ∙ ap (λ l. behind b ++ (l ++ ahead b')) (inflight-getmany b)
          ∙ ap (λ l. behind b ++ l) (append_assoc (inflight b) more (ahead b')) in
        subst (λ l. Permᴰ l (whole b)) (sym e)
          (Permᴰ.append_left (behind b) (Permᴰ.append_left (inflight b) (ahead-getmany b)))

    pub whole-seek : (b : B) → Permᴰ (whole (consumer.seek_to_committed b)) (whole b)
    whole-seek b =
        let b' = consumer.seek_to_committed b in
        let e : whole b' ≡ behind b ++ ahead b' =
          ap (λ l. l ++ (inflight b' ++ ahead b')) (behind-seek b)
          ∙ ap (λ l. behind b ++ (l ++ ahead b')) (inflight-seek b) in
        subst (λ l. Permᴰ l (whole b)) (sym e) (Permᴰ.append_left (behind b) (ahead-seek b))

    pub whole-commit : (b : B) → whole (consumer.commit b).0 ≡ whole b
    whole-commit b =
        let b' = (consumer.commit b).0 in
        ap (λ l. l ++ (inflight b' ++ ahead b')) (behind-commits b)
        ∙ ap (λ l. (behind b ++ inflight b) ++ (l ++ ahead b')) (inflight-commit b (commits b))
        ∙ ap (λ l. (behind b ++ inflight b) ++ l) (ahead-commit b)
        ∙ append_assoc (behind b) (inflight b) (ahead b)
