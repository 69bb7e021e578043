-- ===== src/Ingester/Cancel.antt =====
-- A cancellation inside `_handle_msg` of src/crypto_pipeline/ingester/stream.py, at one of its waits: for
-- the thread of `fetch_range`, and for the broker's reply to a candle. A candle whose reply does not come
-- is not counted, though the producer may have sent it.
use mathlib.Core.Path.{subst}
use crypto_market_data_pipel.Prelude.{
  ℕ, ◌+◌, ◌-◌, ◌/◌, ◌≡◌, ◌≢◌, ◌<◌, true, false, some, List, ◌==◌, length, take, arith,
}
use crypto_market_data_pipel.Common.Errors.{ok}
use crypto_market_data_pipel.Common.Candle.{Candle, minute}
use crypto_market_data_pipel.Common.Dict.{get, set_item}
use crypto_market_data_pipel.Common.Json.{Codec, Json}
use crypto_market_data_pipel.Common.Parse.{parse_ws_candle}
use crypto_market_data_pipel.Backfill.Fetch.{Client, World, fetch_range}
use crypto_market_data_pipel.Ingester.Stream.{
  Producer, Ingester, publish_all, heal_gap, event_of, is_closed,
}
use crypto_market_data_pipel.Ingester.Stream.Publishing.{IsConsistent, publish_all-IsConsistent}
use crypto_market_data_pipel.Ingester.Stream.Invariant.{IsHealthy, IsDue, Due, heal_since-Due}

module _ (c : Codec) {P S : Type 0} where
  -- The handler after the counters went up for a closed candle that parses.
  abbrev pub counted_in : Ingester c P S → Ingester c P S
  counted_in s = record s { received = s.received + 1; kept = s.kept + 1 }

  module _ (broker : Producer c.Bytes P) (client : Client S) (fuel : ℕ) where
    -- What is left of a handler of the candle that is cancelled: while it fetches a gap, which may leave
    -- the exchange in any state; behind the first candles of a gap, before `kept` counts them; behind the
    -- gap, with the candle itself; or with the candle, where nothing is to be healed.
    pub data CutOff (candle : Candle c.D) (s : Ingester c P S) : Ingester c P S → Type 0 where
      fetching :
          {last : ℕ} (w : World S)
          → get s.reconnected candle.symbol ≡ some true
          → get s.last_ts candle.symbol ≡ some last
          → ((candle.ts - last) / minute - 1 == 0) ≡ false
          → CutOff candle s (record (counted_in s) { world = w })
      healing :
          {last : ℕ} {w : World S} {candles : List (Candle c.D)} (n : ℕ) (p : P)
          → get s.reconnected candle.symbol ≡ some true
          → get s.last_ts candle.symbol ≡ some last
          → ((candle.ts - last) / minute - 1 == 0) ≡ false
          → fetch_range c fuel client candle.symbol (last + minute) candle.ts s.world
            ≡ some (w, ok candles)
          → n < length candles
          → CutOff candle s
              (record (publish_all c broker
                (take n candles)
                (record (counted_in s) { world = w })) { producer = p })
      behind_gap :
          {s' : Ingester c P S} (p : P)
          → get s.reconnected candle.symbol ≡ some true
          → heal_gap c broker client fuel candle (counted_in s) ≡ some s'
          → CutOff candle s (record s' {
            reconnected = set_item s'.reconnected candle.symbol false;
            producer = p;
          })
      publishing :
          (p : P)
          → get s.reconnected candle.symbol ≢ some true
          → CutOff candle s (record (counted_in s) { producer = p })

    -- The same for the handler of a message; one that ends without a wait is not cancelled.
    pub data Cancels (msg : Json) (s : Ingester c P S) : Ingester c P S → Type 0 where
      in_candle :
          {event k : Json} {candle : Candle c.D} {s' : Ingester c P S}
          → event_of msg ≡ ok (event, k)
          → is_closed k ≡ ok true
          → parse_ws_candle c event ≡ ok candle
          → CutOff candle s s'
          → Cancels msg s s'

    counted_in-IsDue : (s : Ingester c P S) → IsHealthy c s → IsDue c broker (counted_in s)
    counted_in-IsDue s h =
        let b = h.bounded in
        record {
          consistent = record {
            counted = h.consistent.counted;
            newest_ts = h.consistent.newest_ts;
          };
          due = omega arith;
        }

    heal_gap-Due :
        (candle : Candle c.D) (s : Ingester c P S)
        → IsDue c broker s
        → Due c broker (heal_gap c broker client fuel candle s)
    unfolding heal_gap
    heal_gap-Due candle s h =
        heal_since-Due c broker client fuel candle s (get s.last_ts candle.symbol) h

    CutOff-IsConsistent :
        (candle : Candle c.D) {s s' : Ingester c P S}
        → CutOff candle s s'
        → IsHealthy c s
        → IsConsistent c s'
    CutOff-IsConsistent candle (fetching w on e missing) h = record {
      counted = h.consistent.counted;
      newest_ts = h.consistent.newest_ts;
    }
    CutOff-IsConsistent candle {s} (healing {w} {candles} n p on e missing found some_left) h =
        let all =
          publish_all-IsConsistent c broker (take n candles) (record (counted_in s) { world = w })
            (record { counted = h.consistent.counted; newest_ts = h.consistent.newest_ts }) in
        record { counted = all.counted; newest_ts = all.newest_ts }
    CutOff-IsConsistent candle {s} (behind_gap {s'} p on heals) h =
        let due : IsDue c broker s' =
          subst (Due c broker) heals (heal_gap-Due candle (counted_in s) (counted_in-IsDue s h)) in
        record { counted = due.consistent.counted; newest_ts = due.consistent.newest_ts }
    CutOff-IsConsistent candle (publishing p off) h = record {
      counted = h.consistent.counted;
      newest_ts = h.consistent.newest_ts;
    }

    pub Cancels-IsConsistent :
        (msg : Json) {s s' : Ingester c P S} → Cancels msg s s' → IsHealthy c s → IsConsistent c s'
    Cancels-IsConsistent msg (in_candle {candle} e k read cut) h = CutOff-IsConsistent candle cut h
