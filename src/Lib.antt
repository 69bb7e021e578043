-- ===== src/Lib.antt =====
-- Verification of the crypto market data pipeline (src/crypto_pipeline).
--
-- The program takes closed one-minute candles of an exchange into a Kafka topic (ingester), from there
-- into a table (writer), loads history over REST (backfill), and serves and backtests what is stored.
-- The ingester heals gaps by the backfill's `fetch_range`, and both reach the table by the writer's
-- `insert_candles`. What is modelled, and where:
--
-- - Prelude: numbers, lists and tests that all modules share.
-- - Common/Errors, Common/Dict, Common/Json: exceptions as values, `dict`, JSON values. Numbers in JSON
--   are natural. `Codec` is the standard library's conversion of decimals, ISO times and JSON bytes,
--   with its documented round trips as `IsFaithful`. A symbol that is no text is refused.
-- - Common/Time: common/time.py; only a comparison tells a moment without a time zone from one with one.
-- - Common/Candle, Common/Parse: common/models.py and common/parse.py. A moment is its microseconds
--   since 1970 in UTC.
-- - Backfill/Fetch: backfill/fetch.py. Moments before the second minute of 1970 are out: the last complete
--   minute is then 0 here, and earlier in the code. The HTTP client and the exchange are a parameter,
--   `Client`. The loop takes fuel: Termination gives a bound on the rounds, and Complete shows what the
--   loop returns within it. Pages has the facts on sorted rows, Steps the cases of a round.
-- - Writer/Table: writer/db.py and common/db.py, with the SQL statements as functions on the list of
--   rows. Keys and Replay hold the laws of `insert_candles`, Views what a query sees of the rows;
--   Store is the table as a quotient that forgets their order.
-- - Writer/Consumer: the loop of writer/consumer.py over the interface `Consumer` of the Kafka library,
--   whose offsets are described by `Offsets`. A write goes through, fails, or goes through unseen.
--   Consumer/Topic describes a broker that answers, for Consumer/Progress;
--   Consumer/Restarts has the ends of the process by exceptions and signals, and its starts.
-- - Ingester/Stream: the handler of ingester/stream.py with publishing and healing of gaps, over the
--   interface `Producer`; a handler may raise, and waits for ever where a fetch has no end.
-- - Ingester/Backoff: the delays of the reconnect loop, with the jitter in thousandths. Ingester/Cancel:
--   a cancellation at the waits of the handler. Ingester/Run: the ingester from its construction on, as
--   a step relation over its connections.
-- - Pipeline: the ingester's handler and the writer's loop together, over the messages of the topic.
-- - Backfill/Command: `resolve_range` of common/parse.py and `main` of backfill/__main__.py.
--   Command/Complete runs it against an honest exchange.
-- - Backtest/Numbers: decimals, floats and the functions of pandas as an interface without laws.
--   A division and a `quantize` of decimals may raise; their other operations are taken not to.
-- - Backtest/Frame, Simulation, Signals, Metrics, Runner, Sweep: the files of backtest of these names;
--   contracts.py is spread over them, and `sma` of indicators.py is in Runner, `rsi` in Indicators.
--   Simulation/Trades has the ledger-free description by round trips, Simulation/Order the order of
--   trades, Simulation/Returns when the simulation returns, Sweep/Choice and Sweep/Causal what the sweep
--   chooses, Frame/Grid what the checks of the frame leave, Indicators/Causal what the index depends on.
-- - Backtest/Runner/Trades, Cut and Causal: the run from candles to trades. Backtest/Report, Backtest/Command:
--   the texts and the loop of backtest/__main__.py, over an interface for the formats of numbers.
-- - Api/Queries, Api/Routes: the queries of api/queries.py on the rows of the table, and the handlers of
--   candles and coverage of api/routes.py. The query by hours is a parameter.
-- - Api/Requests, Api/Backtests, Api/App: the request of a backtest with its checks, its handler, and what
--   becomes of the exceptions of a handler (api/models.py, api/routes.py, api/app.py).
-- - Api/Wire: the routes with the parameters and bodies that they declare, over an interface for
--   pydantic's readers. Dashboard/Calls: what the calls of dashboard/api_client.py send to them.
-- - Api/Capacity: requests that share the connections, the semaphore and the threads of the API's
--   process, as a step relation. Capacity/Balance counts them, Capacity/Progress bounds the steps.
-- - Dashboard/Charts, Dashboard/Client: the gaps that the chart shades, the calls of the API.
--   Dashboard/Market, Dashboard/Form: the two pages of dashboard/views; Market/Served and Form/Posted put
--   them on the API's handlers.
-- - Migrations: src/migrations/versions, on the table with its primary key. The server is a parameter.
-- - Examples: tests, reference implementations of the interfaces, and instances of the theorems.
--
-- Not modelled: argument parsing, logging, environment variables, the start of the event loops and the
-- API's life cycle, web sockets, the HTTP framework, the figures of the charts, the set-up of alembic:
-- they are input and output, or calls of libraries with nothing decided between them.
pub mod Prelude
pub mod Common
pub mod Writer
pub mod Backfill
pub mod Ingester
pub mod Examples
pub mod Backtest
pub mod Api
pub mod Dashboard
pub mod Migrations
pub mod Pipeline
