-- ===== src/Common/Parse.antt =====
-- src/crypto_pipeline/common/parse.py and common/time.py: candles from each wire format.
use crypto_market_data_pipel.Prelude.{ℕ, ◌*◌, ◌≡◌, leb, String, if◌then◌else◌}
use crypto_market_data_pipel.Common.Errors.{Result, ok, err, ◌>>=◌, value_error, type_error}
use crypto_market_data_pipel.Common.Candle.{Candle}
use crypto_market_data_pipel.Common.Json.{
  Json, bool, num, text, obj, done, field, item, truthy, Codec, IsFaithful,
}

-- The last millisecond of the year 9999, past which `datetime.fromtimestamp` raises.
abbrev pub max_timestamp_ms : ℕ
max_timestamp_ms = 253_402_300_799_999

-- `datetime.fromtimestamp(value / 1000, tz=UTC)`: milliseconds to a moment. A number past the year 9999
-- is a `ValueError` here; Python raises another exception for numbers beyond the platform's times.
unfoldable pub fromtimestamp_ms : Json → Result ℕ
fromtimestamp_ms (num n) = if leb n max_timestamp_ms then ok (n * 1000) else err value_error
fromtimestamp_ms (bool b) = ok (if b then 1000 else 0)
fromtimestamp_ms _ = err type_error

-- A row of the klines response, as far as the program reads it: `raw[0]` to `raw[5]`.
pub record Kline : Type 0 where
  pub open_time : ℕ
  pub open_text : String
  pub high_text : String
  pub low_text : String
  pub close_text : String
  pub volume_text : String

module _ (c : Codec) where
  unfoldable pub parse_kline : String → Kline → Result (Candle c.D)
  unfolding fromtimestamp_ms
  parse_kline symbol raw = do
    ts ← fromtimestamp_ms (num raw.open_time)
    open_price ← c.decimal (text raw.open_text)
    high ← c.decimal (text raw.high_text)
    low ← c.decimal (text raw.low_text)
    close ← c.decimal (text raw.close_text)
    volume ← c.decimal (text raw.volume_text)
    ok (record {
      symbol = symbol;
      ts = ts;
      open_price = open_price;
      high = high;
      low = low;
      close = close;
      volume = volume;
    })

  -- `symbol=kline["s"]` keeps any value; the model wants a text.
  abbrev as_text : Json → Result String
  as_text (text s) = ok s
  as_text _ = err type_error

  -- The message of the error reads two fields first.
  abbrev unfinished : Json → Result (Unit {0})
  unfinished kline = do s ← item kline "s"; t ← item kline "t"; err value_error

  unfoldable pub parse_ws_candle : Json → Result (Candle c.D)
  unfolding fromtimestamp_ms
  parse_ws_candle msg = do
    kline ← item msg "k"
    x ← item kline "x"
    finished ← (if truthy x then ok tt else unfinished kline)
    ts ← fromtimestamp_ms (← item kline "t")
    symbol ← as_text (← item kline "s")
    open_price ← c.decimal (← item kline "o")
    high ← c.decimal (← item kline "h")
    low ← c.decimal (← item kline "l")
    close ← c.decimal (← item kline "c")
    volume ← c.decimal (← item kline "v")
    ok (record {
      symbol = symbol;
      ts = ts;
      open_price = open_price;
      high = high;
      low = low;
      close = close;
      volume = volume;
    })

  unfoldable pub candle_to_json : Candle c.D → c.Bytes
  candle_to_json k = c.dumps (
      obj (
        field "symbol" (text k.symbol) (
          field "ts" (text (c.isoformat k.ts)) (
            field "open" (text (c.str k.open_price)) (
              field "high" (text (c.str k.high)) (
                field "low" (text (c.str k.low)) (
                  field "close" (text (c.str k.close))
                    (field "volume" (text (c.str k.volume)) done))))))))

  abbrev iso_moment : Json → Result ℕ
  iso_moment (text s) = c.fromisoformat s
  iso_moment _ = err type_error

  unfoldable pub parse_kafka_candle : c.Bytes → Result (Candle c.D)
  parse_kafka_candle raw = do
    kline ← c.loads raw
    ts ← iso_moment (← item kline "ts")
    symbol ← as_text (← item kline "symbol")
    open_price ← c.decimal (← item kline "open")
    high ← c.decimal (← item kline "high")
    low ← c.decimal (← item kline "low")
    close ← c.decimal (← item kline "close")
    volume ← c.decimal (← item kline "volume")
    ok (record {
      symbol = symbol;
      ts = ts;
      open_price = open_price;
      high = high;
      low = low;
      close = close;
      volume = volume;
    })

  module _ (faithful : IsFaithful c) where
    -- The writer reads back every candle that the ingester puts on the topic, field by field.
    pub parse_kafka_candle-candle_to_json :
        (k : Candle c.D) → parse_kafka_candle (candle_to_json k) ≡ ok k
    unfolding parse_kafka_candle candle_to_json
    parse_kafka_candle-candle_to_json k =
        simp (faithful.loads-dumps, faithful.fromisoformat-isoformat, faithful.decimal-str)
