-- ===== src/Ingester/Stream/Publishing.antt =====
-- `_publish`: what it does to the counters, to the log and to `_last_ts`.
use mathlib.Core.List.{append-nil, append_assoc}
use crypto_market_data_pipel.Prelude.{
  ℕ, ◌+◌, ◌≤◌, ◌≡◌, refl, sym, ◌∙◌, ap, Bool, true, false, Option, none, some, List, [], ◌∷◌, ◌++◌,
  ltb, String, str_eq, eq_iff, length, length-append, if◌then◌else◌, arith,
}
use crypto_market_data_pipel.Common.Candle.{Candle}
use crypto_market_data_pipel.Common.Dict.{get, get-set_item}
use crypto_market_data_pipel.Common.Json.{Codec}
use crypto_market_data_pipel.Common.Parse.{candle_to_json}
use crypto_market_data_pipel.Ingester.Stream.{
  Producer, Ingester, acknowledged, publish, publish_all, candles_topic,
}

abbrev later : ℕ → Option ℕ → ℕ
later t none = t
later t (some u) = if ltb t u then u else t

-- A producer that acknowledges every candle.
pub record AlwaysAcks {Bytes P : Type 0} (broker : Producer Bytes P) : Type 0 where
  pub acks :
      (p : P) (topic : String) (value : Bytes) (key : String)
      → (broker.send_and_wait p topic value key).1 ≡ true

module _ (c : Codec) where
  -- The newest time of a symbol among candles in any order.
  abbrev pub newest : String → List (Candle c.D) → Option ℕ
  newest k [] = none
  newest k (x ∷ xs) = if str_eq x.symbol k then some (later x.ts (newest k xs)) else newest k xs

  newest-append :
      (k : String) (xs : List (Candle c.D)) (x : Candle c.D)
      → newest k (xs ++ (x ∷ []))
        ≡ (if str_eq x.symbol k then some (later x.ts (newest k xs)) else newest k xs)
  newest-append k [] x = refl
  newest-append k (y ∷ xs) x = ground (arith, newest-append k xs x)

  module _ {P S : Type 0} where
    -- `published` counts the acknowledged candles, and `_last_ts` holds, for each symbol, the newest
    -- of their times.
    pub record IsConsistent (s : Ingester c P S) : Type 0 where
      pub counted : s.published ≡ length s.log
      pub newest_ts : (k : String) → get s.last_ts k ≡ newest k s.log

    acknowledged-IsConsistent :
        (candle : Candle c.D) (s : Ingester c P S) (reply : P × Bool)
        → IsConsistent s
        → IsConsistent (acknowledged c candle s reply)
    acknowledged-IsConsistent candle s (p, true) h = record {
      counted = omega (arith, h.counted, length-append s.log (candle ∷ []));
      newest_ts = λ k. ground (
        arith,
        h.newest_ts k,
        h.newest_ts candle.symbol,
        eq_iff candle.symbol k,
        newest-append k s.log candle,
        get-set_item s.last_ts candle.symbol k candle.ts,
      );
    }
    acknowledged-IsConsistent candle s (p, false) h = record {
      counted = h.counted;
      newest_ts = h.newest_ts;
    }

    module _ (broker : Producer c.Bytes P) where
      pub publish-IsConsistent :
          (candle : Candle c.D) (s : Ingester c P S)
          → IsConsistent s
          → IsConsistent (publish c broker candle s)
      unfolding publish
      publish-IsConsistent candle s h = acknowledged-IsConsistent candle s _ h

      pub publish_all-IsConsistent :
          (candles : List (Candle c.D)) (s : Ingester c P S)
          → IsConsistent s
          → IsConsistent (publish_all c broker candles s)
      unfolding publish_all
      publish_all-IsConsistent [] s h = h
      publish_all-IsConsistent (x ∷ xs) s h =
          publish_all-IsConsistent xs (publish c broker x s) (publish-IsConsistent x s h)

      pub publish_counts :
          (candle : Candle c.D) (s : Ingester c P S)
          → ((publish c broker candle s).kept ≡ s.kept)
            × ((publish c broker candle s).published ≤ s.published + 1)
            × ((publish c broker candle s).reconnected ≡ s.reconnected)
      unfolding publish
      publish_counts candle s = split _
        where
          split :
              (reply : P × Bool)
              → ((acknowledged c candle s reply).kept ≡ s.kept)
                × ((acknowledged c candle s reply).published ≤ s.published + 1)
                × ((acknowledged c candle s reply).reconnected ≡ s.reconnected)
          split (p, true) = (refl, omega arith, refl)
          split (p, false) = (refl, omega arith, refl)

      pub publish_all_counts :
          (candles : List (Candle c.D)) (s : Ingester c P S)
          → ((publish_all c broker candles s).kept ≡ s.kept)
            × ((publish_all c broker candles s).published ≤ s.published + length candles)
            × ((publish_all c broker candles s).reconnected ≡ s.reconnected)
      unfolding publish_all
      publish_all_counts [] s = (refl, omega arith, refl)
      publish_all_counts (x ∷ xs) s =
          let (k, n, r) = publish_counts x s in
          let (k', n', r') = publish_all_counts xs (publish c broker x s) in
          (k' ∙ k, omega arith, r' ∙ r)

      module _ (reliable : AlwaysAcks broker) where
        pub publish-log :
            (candle : Candle c.D) (s : Ingester c P S)
            → (publish c broker candle s).log ≡ s.log ++ (candle ∷ [])
        unfolding publish
        publish-log candle s =
            split
              (broker.send_and_wait s.producer candles_topic (candle_to_json c candle)
                candle.symbol)
              (reliable.acks s.producer candles_topic (candle_to_json c candle) candle.symbol)
          where
            split :
                (reply : P × Bool)
                → reply.1 ≡ true
                → (acknowledged c candle s reply).log ≡ s.log ++ (candle ∷ [])
            split (p, true) h = refl
            split (p, false) h = cc

        pub publish_all-log :
            (candles : List (Candle c.D)) (s : Ingester c P S)
            → (publish_all c broker candles s).log ≡ s.log ++ candles
        unfolding publish_all
        publish_all-log [] s = sym (append-nil s.log)
        publish_all-log (x ∷ xs) s =
            publish_all-log xs (publish c broker x s)
            ∙ ap (λ (l : List (Candle c.D)). l ++ xs) (publish-log x s)
            ∙ append_assoc s.log (x ∷ []) xs
