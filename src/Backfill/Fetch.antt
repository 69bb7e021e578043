-- ===== src/Backfill/Fetch.antt =====
-- src/crypto_pipeline/backfill/fetch.py: paginated fetching of historical candles.
mod Steps
pub mod Offline
pub mod Termination
pub mod Complete
pub mod Range
pub mod Pages
use crypto_market_data_pipel.Prelude.{
  ℕ, zero, suc, ◌+◌, ◌-◌, ◌*◌, ◌/◌, Bool, true, false, ◌||◌, Option, none, some, List, [], ◌∷◌,
  ◌++◌, ltb, leb, String, length, last_or, if◌then◌else◌,
}
use crypto_market_data_pipel.Common.Errors.{
  Result, ok, err, ◌>>=◌, value_error, runtime_error, http_error,
}
use crypto_market_data_pipel.Common.Candle.{Candle}
use crypto_market_data_pipel.Common.Json.{Codec}
use crypto_market_data_pipel.Common.Parse.{Kline, parse_kline}

abbrev pub query_limit : ℕ
query_limit = 1000

abbrev pub binance_ip_weight_limit : ℕ
binance_ip_weight_limit = 6000

abbrev pub sleep_time : ℕ
sleep_time = 62

-- One minute, in milliseconds.
abbrev pub min_in_epoch : ℕ
min_in_epoch = 60_000

-- `params` of the request; the interval is always "1m".
pub record Params : Type 0 where
  pub symbol : String
  pub limit : ℕ
  pub start_time : ℕ
  pub end_time : Option ℕ

-- The header X-MBX-USED-WEIGHT-1M: missing or empty, no number, or a number.
pub data Weight : Type 0 where
  absent malformed : Weight
  used : ℕ → Weight

pub data Response : Type 0 where
  failed : Response
  response : Weight → List Kline → Response

-- The exchange behind the HTTP client: `none` is a request that gets no response. Its state `S` is
-- whatever may change between requests.
pub record Client (S : Type 0) : Type 0 where
  pub get : Params → S → S × Option Response

-- What the calls leave behind: the exchange's state, and the seconds slept.
pub record World (S : Type 0) : Type 0 where
  pub remote : S
  pub slept : ℕ

-- `int(weight) / 6000 >= 0.9`
abbrev pub is_heavy : Weight → Bool
is_heavy (used n) = leb (9 * binance_ip_weight_limit) (10 * n)
is_heavy _ = false

module _ {S : Type 0} where
  abbrev pub receive : World S → Option Response → World S × Result (List Kline)
  receive w none = (w, err http_error)
  receive w (some failed) = (w, err http_error)
  receive w (some (response malformed rows)) = (w, err value_error)
  receive w (some (response weight rows)) =
      (record w { slept = if is_heavy weight then w.slept + sleep_time else w.slept }, ok rows)

  unfoldable pub fetch_klines :
      Client S → String → ℕ → Option ℕ → ℕ → World S → World S × Result (List Kline)
  fetch_klines client symbol start_ms end_ms limit w =
      let params : Params = record {
        symbol = symbol;
        limit = limit;
        start_time = start_ms;
        end_time = end_ms;
      } in
      let (remote, reply) = client.get params w.remote in
      receive (record w { remote = remote }) reply

-- `int(t.timestamp() * 1000)`, for a moment in microseconds. (The code's product is a float: at whole
-- seconds, which all candles and bounds are, it is exact.)
abbrev pub timestamp_ms : ℕ → ℕ
timestamp_ms t = t / 1000

-- The start of the last minute that is complete at a moment. (In the first minute of 1970 the code's
-- value is -60000, which is 0 here.)
unfoldable pub last_complete_minute_ms : ℕ → ℕ
last_complete_minute_ms now = timestamp_ms now / min_in_epoch * min_in_epoch - min_in_epoch

-- `page[-1][0]`
abbrev pub last_open_time : Kline → List Kline → ℕ
last_open_time row rows = (last_or row rows).open_time

-- `len(page) < QUERY_LIMIT or start_ms > last_complete_ms`
abbrev pub is_last_page : ℕ → List Kline → ℕ → Bool
is_last_page last page start_ms = ltb (length page) query_limit || ltb last start_ms

module _ {S : Type 0} (client : Client S) (symbol : String) (last : ℕ) where
  -- The `while True` loop, with fuel for the rounds; `none` is a loop that goes on.
  unfoldable pub fetch_pages : ℕ → ℕ → List Kline → World S → Option (World S × Result (List Kline))
  fetch_pages zero start_ms candles w = none
  fetch_pages (suc fuel) start_ms candles w =
      let (w', reply) = fetch_klines client symbol start_ms (some last) query_limit w in
      elim reply [
        | err e ↦ some (w', err e)
        | ok [] ↦ some (w', ok candles)
        | ok (row ∷ rows) ↦
            let start_ms' = last_open_time row rows + min_in_epoch in
            let candles' = candles ++ (row ∷ rows) in
            elim (is_last_page last (row ∷ rows) start_ms') [
              | true ↦ some (w', ok candles')
              | false ↦ fetch_pages fuel start_ms' candles' w'
            ]
      ]

-- `candles and candles[-1][0] > last_complete_ms`
abbrev pub in_progress : ℕ → List Kline → Bool
in_progress last [] = false
in_progress last (row ∷ rows) = ltb last (last_open_time row rows)

module _ (c : Codec) where
  -- `[parse_kline(symbol, row) for row in candles]`
  unfoldable pub parse_klines : String → List Kline → Result (List (Candle c.D))
  parse_klines symbol [] = ok []
  parse_klines symbol (row ∷ rows) = do
    candle ← parse_kline c symbol row
    candles ← parse_klines symbol rows
    ok (candle ∷ candles)

  abbrev pub finish : String → ℕ → List Kline → Result (List (Candle c.D))
  finish symbol last candles =
      if in_progress last candles then err runtime_error else parse_klines symbol candles

  abbrev pub parse_fetched :
      {S : Type 0}
      → String
      → ℕ
      → Option (World S × Result (List Kline))
      → Option (World S × Result (List (Candle c.D)))
  parse_fetched symbol last none = none
  parse_fetched symbol last (some (w, fetched)) = some (w, fetched >>= finish symbol last)

  unfoldable pub fetch_range :
      {S : Type 0}
      → ℕ
      → Client S
      → String
      → ℕ
      → ℕ
      → World S
      → Option (World S × Result (List (Candle c.D)))
  fetch_range fuel client symbol start end w =
      let start_ms = timestamp_ms start in
      let last = last_complete_minute_ms end in
      parse_fetched symbol last (fetch_pages client symbol last fuel start_ms [] w)
