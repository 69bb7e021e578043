-- ===== src/Examples/Api.antt =====
-- Instances for src/crypto_pipeline/api and for the command of the backfill.
use crypto_market_data_pipel.Prelude.{
  ℕ, ◌*◌, ◌≤◌, ◌<◌, ◌≡◌, ◌↔◌, ◌≢◌, refl, true, false, min, All, List, [], ◌∷◌, String, length, take,
  arith,
}
use crypto_market_data_pipel.Common.Candle.{Candle, minute}
use crypto_market_data_pipel.Api.Queries.{
  one_minute, list_candles, count_candles, fetch_backtest_candles,
}
use crypto_market_data_pipel.Api.Queries.Limits.{IsAscending, list_candles-count_candles}
use crypto_market_data_pipel.Api.Routes.{CoverageOut, reply, get_coverage}
use crypto_market_data_pipel.Api.Routes.Coverage.{get_coverage-le}
use crypto_market_data_pipel.Backfill.Fetch.{
  fetch_range, fetch_pages, parse_klines, last_complete_minute_ms, fetch_klines,
}
use crypto_market_data_pipel.Common.Parse.{parse_kline}
use crypto_market_data_pipel.Writer.Consumer.{Outcome, written, failed, lost}
use crypto_market_data_pipel.Backfill.Command.{Progress, backfill_all, Grows, backfill_all-Grows}
use crypto_market_data_pipel.Writer.Table.{insert_candles}
use crypto_market_data_pipel.Examples.Reference.{codec, candle, exchange, world}

abbrev pub stored : List (Candle String)
stored = candle 3 ∷ candle 1 ∷ candle 2 ∷ []

abbrev pub no_hours : List (Candle String) → String → ℕ → ℕ → List (Candle String)
no_hours table symbol start end = []

list_candles_test :
    list_candles no_hours stored "BTCUSDT" 0 (5 * minute) 2 one_minute
    ≡ (candle 1 ∷ candle 2 ∷ [], true)
unfolding list_candles
list_candles_test = refl

list_candles-count_candles_example :
    ((list_candles no_hours stored "BTCUSDT" 0 (5 * minute) 2 one_minute).0
      ≡ take 2 (fetch_backtest_candles stored "BTCUSDT" 0 (5 * minute)))
    × IsAscending 0 (list_candles no_hours stored "BTCUSDT" 0 (5 * minute) 2 one_minute).0
    × (length (list_candles no_hours stored "BTCUSDT" 0 (5 * minute) 2 one_minute).0
        ≡ min 2 (count_candles stored "BTCUSDT" 0 (5 * minute)))
    × (((list_candles no_hours stored "BTCUSDT" 0 (5 * minute) 2 one_minute).1 ≡ true) ↔ (
        length (list_candles no_hours stored "BTCUSDT" 0 (5 * minute) 2 one_minute).0
        < count_candles stored "BTCUSDT" 0 (5 * minute)))
list_candles-count_candles_example =
    list_candles-count_candles no_hours stored "BTCUSDT" 0 (5 * minute) 2

get_coverage-le_example :
    (c : CoverageOut) × (get_coverage stored "BTCUSDT" (2 * minute) (5 * minute) ≡ reply c)
    × (c.returned ≤ c.expected)
get_coverage-le_example =
    get_coverage-le stored "BTCUSDT" (2 * minute) (5 * minute) (refl, (refl, (refl, tt)))
      (refl, (refl, (refl, tt))) (omega arith)

abbrev one_stored : Progress codec (Unit {0})
one_stored = record {
  failures = [];
  total_fetched = 0;
  total_inserted = 0;
  table = candle 3 ∷ [];
  world = world;
}

-- Three candles are fetched twice, one of which is stored already, and the second write fails.
abbrev done : Progress codec (Unit {0})
done = record {
  failures = "BTCUSDT" ∷ [];
  total_fetched = 6;
  total_inserted = 2;
  table = candle 3 ∷ candle 2 ∷ candle 5 ∷ [];
  world = world;
}

abbrev writes : List (String × Outcome)
writes = ("BTCUSDT", written) ∷ ("BTCUSDT", failed) ∷ []

backfill_all-Grows_example :
    Grows codec exchange 9 false
      (2 * minute)
      (6 * minute)
      (All (λ x. x.1 ≢ lost) writes)
      one_stored
      done
unfolding backfill_all fetch_range fetch_pages parse_klines parse_kline last_complete_minute_ms
    fetch_klines insert_candles
backfill_all-Grows_example =
    backfill_all-Grows codec exchange 9 false (2 * minute) (6 * minute) writes one_stored done refl
