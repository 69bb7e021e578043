-- ===== src/Examples/Server.antt =====
-- Instances for the table's two writers, for the backfill's command and for the API's process.
use crypto_market_data_pipel.Prelude.{
  ◌-◌, ◌*◌, ◌≡◌, ◌≤◌, ◌⊎◌, refl, false, none, some, List, [], ◌∷◌, ◌++◌, All, String, arith,
}
use crypto_market_data_pipel.Common.Errors.{ok}
use crypto_market_data_pipel.Common.Candle.{Candle, minute}
use crypto_market_data_pipel.Common.Parse.{parse_kline}
use crypto_market_data_pipel.Backfill.Fetch.{parse_klines, last_complete_minute_ms}
use crypto_market_data_pipel.Backfill.Command.{Args, Progress, resolve_range, main}
use crypto_market_data_pipel.Backfill.Command.Complete.{IsHistory, main-stores_history}
use crypto_market_data_pipel.Writer.Consumer.{written}
use crypto_market_data_pipel.Writer.Table.{read_candles}
use crypto_market_data_pipel.Writer.Table.Replay.{AllStored}
use crypto_market_data_pipel.Writer.Table.Views.{Agree}
use crypto_market_data_pipel.Api.Queries.{
  one_minute, fetch_backtest_candles, list_candles, count_candles,
}
use crypto_market_data_pipel.Api.Queries.Views.{both_written, insert_candles_comm}
use crypto_market_data_pipel.Api.Capacity.{
  max_pool_size, max_concurrent_backtests, Stage, arrived, connected, connect, Server, Step, pick,
  Steps, none_left, then, at_rest, Reach, start, arrive,
}
use crypto_market_data_pipel.Api.Capacity.Balance.{
  total, has_thread, has_connection, IsBalanced, IsAnswered, Reach-bounds, abandoned_outnumber,
}
use crypto_market_data_pipel.Api.Capacity.Progress.{work, IsDone, Steps-IsDone}
use crypto_market_data_pipel.Examples.Reference.{
  codec, candle, history, exchange, exchange-IsHonest, world, count_marks,
}
use crypto_market_data_pipel.Examples.Api.{stored, no_hours}

abbrev args : Args
args = record { symbol = "BTCUSDT" ∷ []; days = 1; start = some "11"; end = none; dry_run = false }

abbrev minutes_of : String → List (Candle String)
minutes_of symbol = candle 1 ∷ candle 2 ∷ candle 3 ∷ candle 5 ∷ []

known : All (IsHistory codec history 2 (6 * minute) minutes_of) ("BTCUSDT" ∷ [])
unfolding parse_klines parse_kline last_complete_minute_ms
known = ((omega arith, refl), tt)

main-stores_history_example :
    (q : Progress codec (Unit {0})) × (main codec exchange
        (λ s. s)
        9
        (6 * minute)
        args
        (λ k. written)
        (candle 3 ∷ [])
        world
      ≡ some (ok (0, q)))
    × ((grown : List (Candle String)) × (q.table ≡ (candle 3 ∷ []) ++ grown))
    × All (λ symbol. AllStored q.table (minutes_of symbol)) ("BTCUSDT" ∷ [])
unfolding resolve_range last_complete_minute_ms count_marks
main-stores_history_example =
    main-stores_history codec exchange history exchange-IsHonest (λ s. s) 9 (6 * minute) args
      (candle 3 ∷ []) world minutes_of refl refl (omega arith) (omega arith) known

-- The minutes 4 and 2 from one writer, and 5 and 4 from the other.
abbrev ours : List (Candle String)
ours = candle 4 ∷ candle 2 ∷ []

abbrev theirs : List (Candle String)
theirs = candle 5 ∷ candle 4 ∷ []

agree : Agree ours theirs
agree k x y h h' = ground arith

insert_candles_comm_example :
    let one = both_written stored ours theirs in
    let other = both_written stored theirs ours in
    (read_candles one "BTCUSDT" minute (5 * minute)
      ≡ read_candles other "BTCUSDT" minute (5 * minute))
    × (fetch_backtest_candles one "BTCUSDT" minute (5 * minute)
        ≡ fetch_backtest_candles other "BTCUSDT" minute (5 * minute))
    × (list_candles no_hours one "BTCUSDT" minute (5 * minute) 2 one_minute
        ≡ list_candles no_hours other "BTCUSDT" minute (5 * minute) 2 one_minute)
    × (count_candles one "BTCUSDT" minute (5 * minute)
        ≡ count_candles other "BTCUSDT" minute (5 * minute))
insert_candles_comm_example =
    insert_candles_comm stored ours theirs "BTCUSDT" minute (5 * minute) 2 no_hours
      (refl, (refl, (refl, tt))) agree

-- The first request comes in, and takes a connection.
abbrev waiting : Server
waiting = record (at_rest 8 0 []) { requests = arrived ∷ [] }

waits : Reach 8 waiting
waits = arrive start

abbrev served : Server
served = record {
  shared = record { free = 9; permits = 4; idle = 8; abandoned = 0 };
  requests = connected ∷ [];
}

one_step : Steps waiting 1 served
one_step = then none_left (pick [] [] refl (connect (omega arith)))

Steps-IsDone_example : (1 ≤ work waiting) × (IsDone 8 served ⊎ ((u : Server) × Step served u))
Steps-IsDone_example = Steps-IsDone waits one_step

Reach-bounds_example :
    IsBalanced 8 waiting
    × (total has_thread waiting.requests ≤ max_concurrent_backtests)
    × (total has_connection waiting.requests ≤ max_pool_size)
    × (waiting.shared.abandoned ≡ 8 → waiting.shared.idle ≡ 0)
Reach-bounds_example = Reach-bounds waits

-- Of eight threads, five run a backtest for nobody.
abandoned_outnumber_example :
    (requests : List Stage) × Reach 8 (at_rest (8 - 5) 5 requests) × All IsAnswered requests
abandoned_outnumber_example = abandoned_outnumber 8 5 (omega arith)
