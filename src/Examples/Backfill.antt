-- ===== src/Examples/Backfill.antt =====
-- Instances for src/crypto_pipeline/backfill.
use crypto_market_data_pipel.Prelude.{◌+◌, ◌*◌, ◌≤◌, ◌≡◌, refl, some, List, [], ◌∷◌, arith}
use crypto_market_data_pipel.Common.Errors.{Result, ok}
use crypto_market_data_pipel.Common.Candle.{minute}
use crypto_market_data_pipel.Common.Parse.{Kline, parse_kline}
use crypto_market_data_pipel.Backfill.Fetch.{
  World, Client, response, absent, fetch_pages, fetch_range, parse_klines, fetch_klines,
  last_complete_minute_ms, timestamp_ms,
}
use crypto_market_data_pipel.Backfill.Fetch.Pages.{between}
use crypto_market_data_pipel.Backfill.Fetch.Termination.{NeverGoesBack, fetch_pages_total}
use crypto_market_data_pipel.Backfill.Fetch.Range.{fetch_range_complete, fetch_range_finalized}
use crypto_market_data_pipel.Examples.Reference.{
  codec, kline, candle, history, exchange, exchange-IsHonest, world,
}

-- 05:29:40 is in the minute after the last complete one, which begins at 05:28.
last_complete_minute_ms_test : last_complete_minute_ms 1_784_698_180_000_005 ≡ 1_784_698_080_000
unfolding last_complete_minute_ms
last_complete_minute_ms_test = refl

fetch_range_test :
    fetch_range codec 9 exchange "BTCUSDT" (2 * minute) (6 * minute) world
    ≡ some (world, ok (candle 2 ∷ candle 3 ∷ candle 5 ∷ []))
unfolding fetch_range fetch_pages parse_klines parse_kline last_complete_minute_ms fetch_klines
fetch_range_test = refl

fetch_range_complete_example :
    (w : World (Unit {0})) × (fetch_range codec 9 exchange "BTCUSDT" (2 * minute) (6 * minute) world
      ≡ some (
        w,
        parse_klines codec "BTCUSDT" (
            between
              (timestamp_ms (2 * minute))
              (last_complete_minute_ms (6 * minute))
              (history "BTCUSDT")),
      ))
unfolding last_complete_minute_ms
fetch_range_complete_example =
    fetch_range_complete codec exchange history exchange-IsHonest "BTCUSDT" (omega arith) 9
      (2 * minute) (6 * minute) world (omega arith) (omega arith)

fetch_range_finalized_example : 5 * minute + minute ≤ 6 * minute
unfolding fetch_range fetch_pages parse_klines parse_kline last_complete_minute_ms fetch_klines
fetch_range_finalized_example =
    fetch_range_finalized codec exchange "BTCUSDT" 9 (2 * minute) (6 * minute) world world
      (candle 2) (candle 3 ∷ candle 5 ∷ []) (omega arith) refl

-- An exchange that always has one more candle.
abbrev endless : Client (Unit {0})
endless = record {
  get = λ p s. (s, some (response absent (record (kline 0) { open_time = p.start_time } ∷ [])));
}

endless-NeverGoesBack : NeverGoesBack endless
endless-NeverGoesBack = record { ahead = λ p s. omega arith }

fetch_pages_total_example :
    (r : World (Unit {0}) × Result (List Kline)) × (fetch_pages endless "BTCUSDT" 300_000 6 60_000
        [] world
      ≡ some r)
fetch_pages_total_example =
    fetch_pages_total endless endless-NeverGoesBack "BTCUSDT" 300_000 6 60_000 [] world
      (omega arith) (omega arith)
