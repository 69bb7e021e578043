-- ===== src/Ingester/Stream/Invariant.antt =====
-- The ingester's counters and `_last_ts` stay consistent, whatever the exchange sends.
use crypto_market_data_pipel.Prelude.{
  ℕ, ◌+◌, ◌-◌, ◌/◌, ◌≤◌, Bool, true, false, Option, none, some, List, [], ◌∷◌, ◌==◌, if◌then◌else◌,
  arith,
}
use crypto_market_data_pipel.Common.Errors.{Result, ok, err, value_error}
use crypto_market_data_pipel.Common.Candle.{Candle, minute}
use crypto_market_data_pipel.Common.Dict.{get, set_item}
use crypto_market_data_pipel.Common.Json.{Codec, Json}
use crypto_market_data_pipel.Common.Parse.{parse_ws_candle}
use crypto_market_data_pipel.Backfill.Fetch.{Client, World, fetch_range}
use crypto_market_data_pipel.Ingester.Stream.{
  Producer, Ingester, Ran, returned, raised, waiting, publish, healed, heal_since, heal_gap,
  after_heal, on_candle, on_parsed, on_closed, is_closed, on_event, event_of, handle_msg,
  handle_all, on_connected, stream,
}
use crypto_market_data_pipel.Ingester.Stream.Publishing.{
  IsConsistent, publish-IsConsistent, publish_all-IsConsistent, publish_counts, publish_all_counts,
}

module _ (c : Codec) {P S : Type 0} where
  -- The counters and `_last_ts` agree with the log, and no more candles were published than kept.
  pub record IsHealthy (s : Ingester c P S) : Type 0 where
    pub consistent : IsConsistent c s
    pub bounded : s.published ≤ s.kept

  -- So it is after a handler, also after one that raises.
  abbrev pub Holds : Ran c P S → Type 0
  Holds (returned s) = IsHealthy s
  Holds (raised e s) = IsHealthy s
  Holds waiting = Unit

  module _ (broker : Producer c.Bytes P) where
    -- A candle was counted as kept, and is not published yet.
    pub record IsDue (s : Ingester c P S) : Type 0 where
      pub consistent : IsConsistent c s
      pub due : s.published + 1 ≤ s.kept

    abbrev pub Due : Option (Ingester c P S) → Type 0
    Due none = Unit
    Due (some s) = IsDue s

    publish-IsHealthy :
        (candle : Candle c.D) (s : Ingester c P S) → IsDue s → IsHealthy (publish c broker candle s)
    publish-IsHealthy candle s h = record {
      consistent = publish-IsConsistent c broker candle s h.consistent;
      bounded = let (k, n, r) = publish_counts c broker candle s in let d = h.due in omega arith;
    }

    healed-Due :
        (s : Ingester c P S) (fetched : Option (World S × Result (List (Candle c.D))))
        → IsDue s
        → Due (healed c broker s fetched)
    healed-Due s none h = tt
    healed-Due s (some (w, err e)) h = record {
      consistent = record { counted = h.consistent.counted; newest_ts = h.consistent.newest_ts };
      due = h.due;
    }
    healed-Due s (some (w, ok candles)) h =
        let s₁ : Ingester c P S = record s { world = w } in
        let same : IsConsistent c s₁ = record {
          counted = h.consistent.counted;
          newest_ts = h.consistent.newest_ts;
        } in
        let all = publish_all-IsConsistent c broker candles s₁ same in
        record {
          consistent = record { counted = all.counted; newest_ts = all.newest_ts };
          due =
              let (k, n, r) = publish_all_counts c broker candles s₁ in
              let d = h.due in omega arith;
        }

    module _ (client : Client S) (fuel : ℕ) where
      pub heal_since-Due :
          (candle : Candle c.D) (s : Ingester c P S) (last : Option ℕ)
          → IsDue s
          → Due (heal_since c broker client fuel candle s last)
      heal_since-Due candle s none h = h
      heal_since-Due candle s (some last) h = split ((candle.ts - last) / minute - 1 == 0) _ (
          healed-Due s (fetch_range c fuel client candle.symbol (last + minute) candle.ts s.world)
            h)
        where
          split : (b : Bool) (o : Option (Ingester c P S)) → Due o → Due (if b then some s else o)
          split true o d = h
          split false o d = d

      after_heal-Holds :
          (candle : Candle c.D) (o : Option (Ingester c P S))
          → Due o
          → Holds (after_heal c broker client fuel candle o)
      after_heal-Holds candle none h = tt
      after_heal-Holds candle (some s) h =
          publish-IsHealthy candle
            (record s { reconnected = set_item s.reconnected candle.symbol false })
            (record {
              consistent = record {
                counted = h.consistent.counted;
                newest_ts = h.consistent.newest_ts;
              };
              due = h.due;
            })

      on_candle-Holds :
          (candle : Candle c.D) (s : Ingester c P S) (b : Option Bool)
          → IsDue s
          → Holds (on_candle c broker client fuel candle s b)
      unfolding heal_gap
      on_candle-Holds candle s none h = publish-IsHealthy candle s h
      on_candle-Holds candle s (some false) h = publish-IsHealthy candle s h
      on_candle-Holds candle s (some true) h =
          after_heal-Holds candle (heal_gap c broker client fuel candle s)
            (heal_since-Due candle s (get s.last_ts candle.symbol) h)

      on_parsed-Holds :
          (s : Ingester c P S) (r : Result (Candle c.D))
          → IsDue s
          → Holds (on_parsed c broker client fuel s r)
      on_parsed-Holds s (ok candle) h = on_candle-Holds candle s (get s.reconnected candle.symbol) h
      on_parsed-Holds s (err value_error) h =
          let d = h.due in record { consistent = h.consistent; bounded = omega arith }
      on_parsed-Holds s (err _) h =
          let d = h.due in record { consistent = h.consistent; bounded = omega arith }

      on_closed-Holds :
          (event : Json) (s : Ingester c P S) (r : Result Bool)
          → IsHealthy s
          → Holds (on_closed c broker client fuel event s r)
      on_closed-Holds event s (err e) h = h
      on_closed-Holds event s (ok false) h = h
      on_closed-Holds event s (ok true) h =
          let b = h.bounded in
          on_parsed-Holds (record s { kept = s.kept + 1 }) (parse_ws_candle c event)
            (record {
              consistent = record {
                counted = h.consistent.counted;
                newest_ts = h.consistent.newest_ts;
              };
              due = omega arith;
            })

      on_event-Holds :
          (s : Ingester c P S) (r : Result (Json × Json))
          → IsHealthy s
          → Holds (on_event c broker client fuel s r)
      on_event-Holds s (err e) h = h
      on_event-Holds s (ok (event, k)) h =
          on_closed-Holds event (record s { received = s.received + 1 }) (is_closed k)
            (record {
              consistent = record {
                counted = h.consistent.counted;
                newest_ts = h.consistent.newest_ts;
              };
              bounded = h.bounded;
            })

      handle_all-Holds :
          (msgs : List Json) (s : Ingester c P S)
          → IsHealthy s
          → Holds (handle_all c broker client fuel msgs s)
      unfolding handle_all handle_msg
      handle_all-Holds [] s h = h
      handle_all-Holds (msg ∷ msgs) s h =
          split (handle_all-Holds msgs) (handle_msg c broker client fuel msg s)
            (on_event-Holds s (event_of msg) h)
        where
          split :
              ((s : Ingester c P S) → IsHealthy s → Holds (handle_all c broker client fuel msgs s))
              → (ran : Ran c P S) → Holds ran
              → Holds (elim ran [
                | returned s' ↦ handle_all c broker client fuel msgs s'
                | raised e s' ↦ raised e s'
                | waiting ↦ waiting
              ])
          split ih (returned s') h = ih s' h
          split ih (raised e s') h = h
          split ih waiting h = tt

      -- Over a whole connection, whatever messages come and whether producer and exchange fail or
      -- not: `published` counts the acknowledged candles and is at most `kept`, and `_last_ts` holds
      -- for each symbol the newest time that was acknowledged. So it also stands when an exception
      -- ends the connection.
      pub stream-Holds :
          (msgs : List Json) (s : Ingester c P S)
          → IsHealthy s
          → Holds (stream c broker client fuel msgs s)
      unfolding stream
      stream-Holds msgs s h = handle_all-Holds msgs (on_connected c s) (record {
        consistent = record { counted = h.consistent.counted; newest_ts = h.consistent.newest_ts };
        bounded = h.bounded;
      })
