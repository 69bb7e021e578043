-- ===== src/Api/Capacity.antt =====
-- Requests for a backtest that share the API's process: the connection pool of api/app.py, which
-- `get_conn` of api/deps.py takes a connection from for the time of a request, and the semaphore and
-- the time-out of `post_backtest` in api/routes.py. Which request moves next, and which time-out comes
-- before what it limits, is up to the environment. A request of another handler gets as far as a
-- connection.
pub mod Balance
pub mod Progress
use crypto_market_data_pipel.Prelude.{ℕ, suc, ◌+◌, ◌-◌, ◌≡◌, ◌<◌, List, [], ◌∷◌, ◌++◌}

abbrev pub max_pool_size : ℕ
max_pool_size = 10

abbrev pub max_concurrent_backtests : ℕ
max_concurrent_backtests = 4

-- A response of the handler, or a 503: of `database_unavailable` for a PoolTimeout, or for a TimeoutError.
pub data Answer : Type 0 where
  handled unavailable : Answer

-- A request that waits for a connection, that has one, that has a permit too, whose backtest runs in a
-- thread, or that is answered.
pub data Stage : Type 0 where
  arrived connected admitted running : Stage
  answered : Answer → Stage

-- The free connections, the permits of the semaphore, the idle threads of the event loop's executor,
-- and its threads whose request is answered.
pub record Shared : Type 0 where
  pub free : ℕ
  pub permits : ℕ
  pub idle : ℕ
  pub abandoned : ℕ

-- A step of one request. A time-out cancels `asyncio.to_thread`, and a job that has not begun, but no
-- thread that runs.
pub data Move (p : Shared) : Stage → Shared → Stage → Type 0 where
  connect : 0 < p.free → Move p arrived (record p { free = p.free - 1 }) connected
  no_connection : Move p arrived p (answered unavailable)
  refuse : Move p connected (record p { free = p.free + 1 }) (answered handled)
  acquire : 0 < p.permits → Move p connected (record p { permits = p.permits - 1 }) admitted
  not_in_time : Move p connected (record p { free = p.free + 1 }) (answered unavailable)
  begin : 0 < p.idle → Move p admitted (record p { idle = p.idle - 1 }) running
  cancel :
      Move p admitted
        (record p { free = p.free + 1; permits = p.permits + 1 })
        (answered unavailable)
  finish :
      Move p running
        (record p { free = p.free + 1; permits = p.permits + 1; idle = p.idle + 1 })
        (answered handled)
  time_out :
      Move p running
        (record p { free = p.free + 1; permits = p.permits + 1; abandoned = p.abandoned + 1 })
        (answered unavailable)

pub record Server : Type 0 where
  pub shared : Shared
  pub requests : List Stage

-- The end of a thread whose request is answered.
abbrev pub thread_ended : Shared → Shared
thread_ended p = record p { idle = p.idle + 1; abandoned = p.abandoned - 1 }

pub data Step (s : Server) : Server → Type 0 where
  pick :
      (front back : List Stage) {a b : Stage} {p : Shared}
      → s.requests ≡ front ++ (a ∷ back)
      → Move s.shared a p b
      → Step s (record { shared = p; requests = front ++ (b ∷ back) })
  thread_ends : 0 < s.shared.abandoned → Step s (record s { shared = thread_ended s.shared })

-- A number of steps, with no request that comes in.
pub data Steps (s : Server) : ℕ → Server → Type 0 where
  none_left : Steps s 0 s
  then : {n : ℕ} {t u : Server} → Steps s n t → Step t u → Steps s (suc n) u

-- A server with an executor of so many threads, some of them with no request any more.
abbrev pub at_rest : (idle abandoned : ℕ) → List Stage → Server
at_rest idle abandoned requests = record {
  shared = record {
    free = max_pool_size;
    permits = max_concurrent_backtests;
    idle = idle;
    abandoned = abandoned;
  };
  requests = requests;
}

pub data Reach (workers : ℕ) : Server → Type 0 where
  start : Reach workers (at_rest workers 0 [])
  arrive :
      {s : Server}
      → Reach workers s
      → Reach workers (record s { requests = s.requests ++ (arrived ∷ []) })
  later : {s t : Server} → Reach workers s → Step s t → Reach workers t
