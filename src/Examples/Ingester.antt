-- ===== src/Examples/Ingester.antt =====
-- Instances for src/crypto_pipeline/ingester.
use crypto_market_data_pipel.Prelude.{
  ℕ, ◌≤◌, All, ◌*◌, ◌≡◌, refl, true, false, some, List, [], ◌∷◌, arith,
}
use crypto_market_data_pipel.Common.Candle.{minute}
use crypto_market_data_pipel.Common.Dict.{get}
use crypto_market_data_pipel.Common.Json.{Json, bool, num, text, obj, done, field}
use crypto_market_data_pipel.Common.Parse.{parse_ws_candle, parse_kline}
use crypto_market_data_pipel.Backfill.Fetch.{
  fetch_range, fetch_pages, fetch_klines, parse_klines, last_complete_minute_ms,
}
use crypto_market_data_pipel.Ingester.Stream.{
  Ingester, returned, handle_msg, heal_gap, handle_all, stream, on_connected, publish, publish_all,
}
use crypto_market_data_pipel.Ingester.Stream.Healing.{handle_msg_heals}
use crypto_market_data_pipel.Ingester.Stream.Failures.{gap_lost}
use crypto_market_data_pipel.Ingester.Backoff.{Attempt, sleeps}
use crypto_market_data_pipel.Ingester.Cancel.{counted_in, healing, Cancels, in_candle}
use crypto_market_data_pipel.Ingester.Run.{
  new, cancelled, unreached, ended, stopped_inside, here, then, IsSound, begin-IsSound,
}
use crypto_market_data_pipel.Examples.Reference.{
  codec, candle, exchange, exchange-IsHonest, history, world, broker, broker-AlwaysAcks, offline,
}

abbrev kline_at : ℕ → Json → Json
kline_at minutes close = obj (
    field "t" (num (60_000 * minutes)) (
      field "s" (text "BTCUSDT") (
        field "x" (bool true) (
          field "o" (text "10") (
            field "h" (text "12")
              (field "l" (text "9") (field "c" close (field "v" (text "1") done))))))))

abbrev pub kline_of : Json → Json
kline_of close = kline_at 5 close

abbrev event_at : ℕ → Json → Json
event_at minutes close = obj (field "k" (kline_at minutes close) done)

abbrev pub event_with : Json → Json
event_with close = event_at 5 close

abbrev msg_at : ℕ → Json → Json
msg_at minutes close = obj (field "data" (event_at minutes close) done)

abbrev pub msg_with : Json → Json
msg_with close = msg_at 5 close

-- Connected again, with the candle of minute 2 as the last one published.
abbrev pub reconnected : Ingester codec (Unit {0}) (Unit {0})
reconnected = record {
  symbols = "BTCUSDT" ∷ [];
  received = 1;
  kept = 1;
  published = 1;
  last_ts = ("BTCUSDT", 2 * minute) ∷ [];
  reconnected = ("BTCUSDT", true) ∷ [];
  producer = tt;
  world = world;
  log = candle 2 ∷ [];
}

handle_msg_heals_example :
    (s : Ingester codec (Unit {0}) (Unit {0})) × (handle_msg codec broker exchange 9
        (msg_with (text "11"))
        reconnected
      ≡ returned s)
    × (s.log ≡ candle 2 ∷ candle 3 ∷ candle 5 ∷ [])
    × (s.kept ≡ 3)
    × (get s.reconnected "BTCUSDT" ≡ some false)
unfolding parse_ws_candle parse_klines parse_kline last_complete_minute_ms
handle_msg_heals_example =
    handle_msg_heals codec broker broker-AlwaysAcks exchange history exchange-IsHonest 9
      (msg_with (text "11")) (event_with (text "11")) (kline_of (text "11")) (candle 5) reconnected
      (2 * minute) (candle 3 ∷ []) refl refl refl refl refl (omega arith) (omega arith)
      (omega arith) refl (omega arith) refl

-- The candle of minute 3, which the exchange has, is lost; that of minute 6 is healed.
gap_lost_example :
    (s : Ingester codec (Unit {0}) (Unit {0})) × (s' : Ingester codec (Unit {0}) (Unit {0}))
    × (handle_msg codec broker offline 9 (msg_with (text "11")) reconnected ≡ returned s)
    × (handle_msg codec broker exchange 9 (msg_at 7 (text "11")) (on_connected codec s)
        ≡ returned s')
    × (s'.log ≡ candle 2 ∷ candle 5 ∷ candle 6 ∷ candle 7 ∷ [])
    × All (λ x. 5 * minute ≤ x.ts) (candle 5 ∷ candle 6 ∷ candle 7 ∷ [])
unfolding parse_ws_candle parse_klines parse_kline last_complete_minute_ms
gap_lost_example =
    gap_lost codec offline broker broker-AlwaysAcks (record { silent = λ p s. refl }) 8 exchange
      history exchange-IsHonest (msg_with (text "11")) (event_with (text "11"))
      (kline_of (text "11")) (candle 5) reconnected (2 * minute) (msg_at 7 (text "11"))
      (event_at 7 (text "11")) (kline_at 7 (text "11")) (candle 7) (candle 6 ∷ []) refl refl refl
      refl refl (omega arith) (omega arith) refl refl refl refl refl (omega arith) (omega arith)
      (omega arith) refl

abbrev attempts : List Attempt
attempts =
    record { uptime = 2; jitter = 1500 }
    ∷ record { uptime = 3; jitter = 500 }
    ∷ record { uptime = 0; jitter = 1000 }
    ∷ []

sleeps_test : sleeps 5 attempts ≡ 7_500 ∷ 5_000 ∷ 20_000 ∷ []
unfolding sleeps
sleeps_test = refl

abbrev fresh : Ingester codec (Unit {0}) (Unit {0})
fresh = new codec ("BTCUSDT" ∷ []) tt world

stream_of_one :
    (s : Ingester codec (Unit {0}) (Unit {0})) × (stream codec broker exchange 9
        (msg_with (text "11") ∷ [])
        fresh
      ≡ returned s)
unfolding stream handle_all handle_msg heal_gap parse_ws_candle new
stream_of_one = (_, refl)

stream_of_none :
    (s : Ingester codec (Unit {0}) (Unit {0})) × (stream codec broker exchange 9 [] stream_of_one.0
      ≡ returned s)
unfolding stream handle_all
stream_of_none = (_, refl)

-- The handler of minute 7 is cancelled while it publishes the gap, of which the minute 6 is not sent.
abbrev cut_off : Ingester codec (Unit {0}) (Unit {0})
cut_off = record (counted_in codec stream_of_none.0) { world = world }

cut_off-Cancels : Cancels codec broker exchange 9 (msg_at 7 (text "11")) stream_of_none.0 cut_off
unfolding stream handle_all handle_msg heal_gap parse_ws_candle new fetch_range fetch_pages
    parse_klines parse_kline last_complete_minute_ms fetch_klines stream_of_none stream_of_one
    publish publish_all
cut_off-Cancels = in_candle refl refl refl (healing 0 tt refl refl refl refl (omega arith))

-- A connection that is not made, one with a candle, and one in which the task is cancelled in a handler.
begin-IsSound_example : IsSound codec broker exchange 9 (cancelled cut_off)
begin-IsSound_example =
    begin-IsSound codec broker exchange 9 ("BTCUSDT" ∷ []) tt world (cancelled cut_off) (
      then
        (then (then here (unreached (record { uptime = 2; jitter = 1500 }))) (
          ended (record { uptime = 90; jitter = 500 }) (msg_with (text "11") ∷ []) stream_of_one.1))
        (stopped_inside [] (msg_at 7 (text "11")) stream_of_none.1 cut_off-Cancels))
