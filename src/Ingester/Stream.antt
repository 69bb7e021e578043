-- ===== src/Ingester/Stream.antt =====
-- src/crypto_pipeline/ingester/stream.py: the messages of one connection, and healing of gaps.
pub mod Publishing
pub mod Invariant
mod Steps
pub mod Healing
pub mod Failures
use crypto_market_data_pipel.Prelude.{
  ℕ, zero, suc, ◌+◌, ◌-◌, ◌/◌, Bool, true, false, Option, none, some, List, [], ◌∷◌, ◌++◌, ◌==◌,
  ltb, String, length, if◌then◌else◌,
}
use crypto_market_data_pipel.Common.Errors.{Error, Result, ok, err, ◌>>=◌, value_error}
use crypto_market_data_pipel.Common.Candle.{Candle, minute}
use crypto_market_data_pipel.Common.Dict.{Dict, get, set_item, fromkeys}
use crypto_market_data_pipel.Common.Json.{Json, item, truthy, Codec}
use crypto_market_data_pipel.Common.Parse.{parse_ws_candle, candle_to_json}
use crypto_market_data_pipel.Backfill.Fetch.{Client, World, fetch_range}

abbrev pub candles_topic : String
candles_topic = "candles.1m"

-- AIOKafkaProducer: `send_and_wait` of a topic, a value and a key; `false` is an exception.
pub record Producer (Bytes P : Type 0) : Type 0 where
  pub send_and_wait : P → String → Bytes → String → P × Bool

-- `msg["data"]` and `event["k"]`
abbrev pub event_of : Json → Result (Json × Json)
event_of msg = do event ← item msg "data"; k ← item event "k"; ok (event, k)

-- The log line reads `k["s"]` and `k["x"]`.
abbrev pub is_closed : Json → Result Bool
is_closed k = do symbol ← item k "s"; x ← item k "x"; ok (truthy x)

module _ (c : Codec) where
  -- The attributes of BinanceIngester, the producer and the exchange behind them, and the candles of
  -- the log lines `candle_published`.
  pub record Ingester (P S : Type 0) : Type 0 where
    pub symbols : List String
    pub received : ℕ
    pub kept : ℕ
    pub published : ℕ
    pub last_ts : Dict ℕ
    pub reconnected : Dict Bool
    pub producer : P
    pub world : World S
    pub log : List (Candle c.D)

  -- A handler returns, or raises, or waits for ever for a fetch that does not end.
  pub data Ran (P S : Type 0) : Type 0 where
    returned : Ingester P S → Ran P S
    raised : Error → Ingester P S → Ran P S
    waiting : Ran P S

  -- `if last is None or last < candle.ts: self._last_ts[candle.symbol] = candle.ts`
  abbrev pub advance : Dict ℕ → Candle c.D → Option ℕ → Dict ℕ
  advance last_ts candle none = set_item last_ts candle.symbol candle.ts
  advance last_ts candle (some last) =
      if ltb last candle.ts then set_item last_ts candle.symbol candle.ts else last_ts

  module _ {P S : Type 0} where
    abbrev pub acknowledged : Candle c.D → Ingester P S → P × Bool → Ingester P S
    acknowledged candle s (p, true) = record s {
      producer = p;
      published = s.published + 1;
      last_ts = advance s.last_ts candle (get s.last_ts candle.symbol);
      log = s.log ++ (candle ∷ []);
    }
    acknowledged candle s (p, false) = record s { producer = p }

    -- `self._reconnected = dict.fromkeys(self.symbols, True)`, when a connection stands.
    unfoldable pub on_connected : Ingester P S → Ingester P S
    on_connected s = record s { reconnected = fromkeys s.symbols true }

    module _ (broker : Producer c.Bytes P) where
      unfoldable pub publish : Candle c.D → Ingester P S → Ingester P S
      publish candle s =
          acknowledged candle s
            (broker.send_and_wait s.producer candles_topic (candle_to_json c candle) candle.symbol)

      -- `for c in candles: await self._publish(c)`
      unfoldable pub publish_all : List (Candle c.D) → Ingester P S → Ingester P S
      publish_all [] s = s
      publish_all (candle ∷ candles) s = publish_all candles (publish candle s)

      -- An exception of the fetch is logged, and the gap stays.
      abbrev pub healed :
          Ingester P S → Option (World S × Result (List (Candle c.D))) → Option (Ingester P S)
      healed s none = none
      healed s (some (w, ok candles)) =
          let s' = publish_all candles (record s { world = w }) in
          some (record s' { kept = s'.kept + length candles })
      healed s (some (w, err e)) = some (record s { world = w })

      module _ (client : Client S) (fuel : ℕ) where
        -- `missing` is `int((candle.ts - last_ts) / 1 min) - 1`; not above 0, also where the candle
        -- is older than `last_ts`, is 0 here.
        abbrev pub heal_since : Candle c.D → Ingester P S → Option ℕ → Option (Ingester P S)
        heal_since candle s none = some s
        heal_since candle s (some last) =
            let missing = (candle.ts - last) / minute - 1 in
            let fetched =
              fetch_range c fuel client candle.symbol (last + minute) candle.ts s.world in
            if missing == 0 then some s else healed s fetched

        unfoldable pub heal_gap : Candle c.D → Ingester P S → Option (Ingester P S)
        heal_gap candle s = heal_since candle s (get s.last_ts candle.symbol)

        abbrev pub after_heal : Candle c.D → Option (Ingester P S) → Ran P S
        after_heal candle none = waiting
        after_heal candle (some s) =
            returned (
              publish candle
                (record s { reconnected = set_item s.reconnected candle.symbol false }))

        -- `if self._reconnected.get(candle.symbol): …`, then `_publish`
        abbrev pub on_candle : Candle c.D → Ingester P S → Option Bool → Ran P S
        on_candle candle s (some true) = after_heal candle (heal_gap candle s)
        on_candle candle s _ = returned (publish candle s)

        -- `except ValueError: … return`; other exceptions go up.
        abbrev pub on_parsed : Ingester P S → Result (Candle c.D) → Ran P S
        on_parsed s (ok candle) = on_candle candle s (get s.reconnected candle.symbol)
        on_parsed s (err value_error) = returned s
        on_parsed s (err e) = raised e s

        -- `if k["x"]: self.kept += 1; …`
        abbrev pub on_closed : Json → Ingester P S → Result Bool → Ran P S
        on_closed event s (err e) = raised e s
        on_closed event s (ok false) = returned s
        on_closed event s (ok true) =
            on_parsed (record s { kept = s.kept + 1 }) (parse_ws_candle c event)

        abbrev pub on_event : Ingester P S → Result (Json × Json) → Ran P S
        on_event s (err e) = raised e s
        on_event s (ok (event, k)) =
            on_closed event (record s { received = s.received + 1 }) (is_closed k)

        unfoldable pub handle_msg : Json → Ingester P S → Ran P S
        handle_msg msg s = on_event s (event_of msg)

        -- The messages of one connection, in order, after it stands.
        unfoldable pub handle_all : List Json → Ingester P S → Ran P S
        handle_all [] s = returned s
        handle_all (msg ∷ msgs) s = elim (handle_msg msg s) [
          | returned s' ↦ handle_all msgs s'
          | raised e s' ↦ raised e s'
          | waiting ↦ waiting
        ]

        -- `_connect_and_stream`, up to the end of the connection.
        unfoldable pub stream : List Json → Ingester P S → Ran P S
        unfolding on_connected
        stream msgs s = handle_all msgs (on_connected s)
