-- ===== src/Ingester/Run.antt =====
-- `BinanceIngester` of src/crypto_pipeline/ingester/stream.py from its construction on: `run` as a step
-- relation, a step for each connection. Which messages a connection brings and how it ends is up to
-- the environment, and so is the reply of the broker.
use mathlib.Core.Path.{subst}
use crypto_market_data_pipel.Prelude.{ℕ, ◌≤◌, ◌≡◌, refl, false, List, [], String, arith}
use crypto_market_data_pipel.Common.Errors.{Error}
use crypto_market_data_pipel.Common.Dict.{fromkeys}
use crypto_market_data_pipel.Common.Json.{Codec, Json}
use crypto_market_data_pipel.Backfill.Fetch.{Client, World}
use crypto_market_data_pipel.Ingester.Stream.{Producer, Ingester, returned, raised, stream}
use crypto_market_data_pipel.Ingester.Stream.Invariant.{IsHealthy, Holds, stream-Holds}
use crypto_market_data_pipel.Ingester.Stream.Publishing.{IsConsistent}
use crypto_market_data_pipel.Ingester.Cancel.{Cancels, Cancels-IsConsistent}
use crypto_market_data_pipel.Ingester.Backoff.{
  Attempt, backoff_base, backoff_max, next_delay, next_delay_bounds,
}

module _ (c : Codec) where
  -- The loop with its delay, or after an exception that it does not catch, or cancelled.
  pub data Run (P S : Type 0) : Type 0 where
    looping : Ingester c P S → ℕ → Run P S
    failed : Error → Ingester c P S → Run P S
    cancelled : Ingester c P S → Run P S

module _ (c : Codec) {P S : Type 0} where
  -- `__init__`, for symbols in upper case, with a producer and an exchange.
  unfoldable pub new : List String → P → World S → Ingester c P S
  new symbols producer world = record {
    symbols = symbols;
    received = 0;
    kept = 0;
    published = 0;
    last_ts = [];
    reconnected = fromkeys symbols false;
    producer = producer;
    world = world;
    log = [];
  }

  abbrev pub begin : List String → P → World S → Run c P S
  begin symbols producer world = looping (new symbols producer world) backoff_base

  module _ (broker : Producer c.Bytes P) (client : Client S) (fuel : ℕ) where
    -- A connection that fails or ends is followed by another; an exception of a handler ends the loop;
    -- the loop may be cancelled at any of its waits: before a connection stands or in the sleep between
    -- two, between two messages, and inside the handler of a message.
    pub data Connects : Run c P S → Run c P S → Type 0 where
      unreached :
          {s : Ingester c P S} {delay : ℕ} (a : Attempt)
          → Connects (looping s delay) (looping s (next_delay delay a))
      ended :
          {s s' : Ingester c P S} {delay : ℕ} (a : Attempt) (msgs : List Json)
          → stream c broker client fuel msgs s ≡ returned s'
          → Connects (looping s delay) (looping s' (next_delay delay a))
      broke :
          {s s' : Ingester c P S} {delay : ℕ} {e : Error} (msgs : List Json)
          → stream c broker client fuel msgs s ≡ raised e s'
          → Connects (looping s delay) (failed e s')
      stopped :
          {s s' : Ingester c P S} {delay : ℕ} (msgs : List Json)
          → stream c broker client fuel msgs s ≡ returned s'
          → Connects (looping s delay) (cancelled s')
      stopped_outside : {s : Ingester c P S} {delay : ℕ} → Connects (looping s delay) (cancelled s)
      stopped_inside :
          {s s' s'' : Ingester c P S} {delay : ℕ} (msgs : List Json) (msg : Json)
          → stream c broker client fuel msgs s ≡ returned s'
          → Cancels c broker client fuel msg s' s''
          → Connects (looping s delay) (cancelled s'')

    pub data Reach (r : Run c P S) : Run c P S → Type 0 where
      here : Reach r r
      then : {t u : Run c P S} → Reach r t → Connects t u → Reach r u

    -- The ingester is healthy, and the delay is between its bounds. After a cancellation the counters
    -- and `_last_ts` agree with the log; the candles of a gap may be published and not counted as kept.
    abbrev pub IsSound : Run c P S → Type 0
    IsSound (looping s delay) = IsHealthy c s × (backoff_base ≤ delay) × (delay ≤ backoff_max)
    IsSound (failed e s) = IsHealthy c s
    IsSound (cancelled s) = IsConsistent c s

    new-IsHealthy :
        (symbols : List String) (producer : P) (world : World S)
        → IsHealthy c (new symbols producer world)
    unfolding new
    new-IsHealthy symbols producer world = record {
      consistent = record { counted = refl; newest_ts = λ k. refl };
      bounded = omega arith;
    }

    Connects-IsSound : {t u : Run c P S} → Connects t u → IsSound t → IsSound u
    Connects-IsSound (unreached {delay} a) (h, lo, hi) =
        let (lo', hi') = next_delay_bounds delay a lo hi in (h, lo', hi')
    Connects-IsSound (ended {s} {delay} a msgs e) (h, lo, hi) =
        let (lo', hi') = next_delay_bounds delay a lo hi in
        (subst (Holds c) e (stream-Holds c broker client fuel msgs s h), lo', hi')
    Connects-IsSound (broke {s} msgs e) (h, lo, hi) =
        subst (Holds c) e (stream-Holds c broker client fuel msgs s h)
    Connects-IsSound (stopped {s} {s'} msgs e) (h, lo, hi) =
        let healthy : IsHealthy c s' =
          subst (Holds c) e (stream-Holds c broker client fuel msgs s h) in
        healthy.consistent
    Connects-IsSound stopped_outside (h, lo, hi) = h.consistent
    Connects-IsSound (stopped_inside {s} {s'} msgs msg e cut) (h, lo, hi) =
        let healthy : IsHealthy c s' =
          subst (Holds c) e (stream-Holds c broker client fuel msgs s h) in
        Cancels-IsConsistent c broker client fuel msg cut healthy

    Reach-IsSound : {t u : Run c P S} → IsSound t → Reach t u → IsSound u
    Reach-IsSound h here = h
    Reach-IsSound h (then r step) = Connects-IsSound step (Reach-IsSound h r)

    -- Over any number of connections from its construction on, however they end, also by an exception or
    -- by a cancellation at any wait: `published` is the number of the candles that were acknowledged, and
    -- `_last_ts` has for each symbol the newest of their times. But for a cancellation, no more candles are
    -- counted as published than as kept. While the loop runs its delay is between its base and its
    -- maximum.
    pub begin-IsSound :
        (symbols : List String) (producer : P) (world : World S) (u : Run c P S)
        → Reach (begin symbols producer world) u
        → IsSound u
    begin-IsSound symbols producer world u r =
        Reach-IsSound (new-IsHealthy symbols producer world, omega arith, omega arith) r
