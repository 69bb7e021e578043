-- ===== src/Api/Capacity/Balance.antt =====
-- Connections and permits are given back, but a thread may outlive its permit.
use mathlib.Core.Path.{subst}
use crypto_market_data_pipel.Prelude.{
  ℕ, zero, suc, ◌+◌, ◌≡◌, ◌≤◌, refl, ap, List, [], ◌∷◌, ◌++◌, ◌-◌, All, All-append, arith,
}
use crypto_market_data_pipel.Api.Capacity.{
  max_pool_size, max_concurrent_backtests, Answer, unavailable, Stage, arrived, connected, admitted,
  running, answered, Shared, Move, connect, no_connection, refuse, acquire, not_in_time, begin,
  cancel, finish, time_out, Server, Step, pick, thread_ends, at_rest, Reach, start, arrive, later,
}

-- The sum of the weights of some requests.
unfoldable pub total : (Stage → ℕ) → List Stage → ℕ
total w [] = 0
total w (a ∷ rest) = w a + total w rest

pub total-append :
    (w : Stage → ℕ) (xs ys : List Stage) → total w (xs ++ ys) ≡ total w xs + total w ys
unfolding total
total-append w [] ys = omega arith
total-append w (x ∷ xs) ys = omega (arith, total-append w xs ys)

pub total-pick :
    (w : Stage → ℕ) (front back : List Stage) (a : Stage)
    → total w (front ++ (a ∷ back)) ≡ w a + (total w front + total w back)
unfolding total
total-pick w front back a = omega (arith, total-append w front (a ∷ back))

abbrev pub has_connection : Stage → ℕ
has_connection arrived = 0
has_connection connected = 1
has_connection admitted = 1
has_connection running = 1
has_connection (answered a) = 0

abbrev pub has_permit : Stage → ℕ
has_permit arrived = 0
has_permit connected = 0
has_permit admitted = 1
has_permit running = 1
has_permit (answered a) = 0

abbrev pub has_thread : Stage → ℕ
has_thread arrived = 0
has_thread connected = 0
has_thread admitted = 0
has_thread running = 1
has_thread (answered a) = 0

-- Every connection is free or with one request, and so is every permit; every thread is idle, runs for
-- a request, or is abandoned.
pub record IsBalanced (workers : ℕ) (s : Server) : Type 0 where
  pub connections : s.shared.free + total has_connection s.requests ≡ max_pool_size
  pub permits : s.shared.permits + total has_permit s.requests ≡ max_concurrent_backtests
  pub threads : s.shared.idle + total has_thread s.requests + s.shared.abandoned ≡ workers

Move-balance :
    {p q : Shared} {a b : Stage}
    → Move p a q b
    → (p.free + has_connection a ≡ q.free + has_connection b)
      × (p.permits + has_permit a ≡ q.permits + has_permit b)
      × (p.idle + has_thread a + p.abandoned ≡ q.idle + has_thread b + q.abandoned)
Move-balance (connect h) = omega arith
Move-balance no_connection = omega arith
Move-balance refuse = omega arith
Move-balance (acquire h) = omega arith
Move-balance not_in_time = omega arith
Move-balance (begin h) = omega arith
Move-balance cancel = omega arith
Move-balance finish = omega arith
Move-balance time_out = omega arith

-- What a step of one request does to a weight over all of them.
pub weigh :
    (w : Stage → ℕ) {l : List Stage} (front back : List Stage) (a b : Stage)
    → l ≡ front ++ (a ∷ back)
    → total w l + w b ≡ total w (front ++ (b ∷ back)) + w a
weigh w front back a b e =
    omega (arith, ap (total w) e, total-pick w front back a, total-pick w front back b)

Step-IsBalanced :
    {workers : ℕ} {s t : Server} → Step s t → IsBalanced workers s → IsBalanced workers t
Step-IsBalanced (pick front back {a} {b} e mv) h =
    let same = Move-balance mv in
    record {
      connections = omega (arith, h.connections, weigh has_connection front back a b e, same.0);
      permits = omega (arith, h.permits, weigh has_permit front back a b e, same.1);
      threads = omega (arith, h.threads, weigh has_thread front back a b e, same.2);
    }
Step-IsBalanced (thread_ends some_left) h = record {
  connections = h.connections;
  permits = h.permits;
  threads = omega (arith, h.threads);
}

pub Reach-IsBalanced : {workers : ℕ} {s : Server} → Reach workers s → IsBalanced workers s
unfolding total
Reach-IsBalanced start = record { connections = refl; permits = refl; threads = omega arith }
Reach-IsBalanced (arrive {s} r) =
    let h = Reach-IsBalanced r in
    record {
      connections =
          omega (arith, h.connections, total-append has_connection s.requests (arrived ∷ []));
      permits = omega (arith, h.permits, total-append has_permit s.requests (arrived ∷ []));
      threads = omega (arith, h.threads, total-append has_thread s.requests (arrived ∷ []));
    }
Reach-IsBalanced (later r step) = Step-IsBalanced step (Reach-IsBalanced r)

abbrev pub IsAnswered : Stage → Type 0
IsAnswered s = (a : Answer) × (s ≡ answered a)

-- A request that begins its backtest and is then timed out.
one_more_thread :
    (workers idle abandoned : ℕ) (l : List Stage)
    → Reach workers (at_rest (idle + 1) abandoned l)
    → Reach workers (at_rest idle (abandoned + 1) (l ++ (answered unavailable ∷ [])))
one_more_thread workers idle abandoned l r =
    let timed_out =
      later
        (later
          (later (later (arrive r) (pick l [] refl (connect (omega arith))))
            (pick l [] refl (acquire (omega arith))))
          (pick l [] refl (begin (omega arith))))
        (pick l [] refl time_out) in
    subst (λ k. Reach workers (at_rest k (abandoned + 1) (l ++ (answered unavailable ∷ []))))
      (omega arith) timed_out

-- The semaphore does not bound the threads: for every number of them up to the size of the executor
-- there is a state that the server reaches in which every request is answered, every connection and
-- every permit is free, and that many threads still run a backtest.
pub abandoned_outnumber :
    (workers n : ℕ)
    → n ≤ workers
    → (requests : List Stage) × Reach workers (at_rest (workers - n) n requests)
      × All IsAnswered requests
abandoned_outnumber workers zero h =
    let all : workers ≡ workers - 0 = omega arith in
    ([], subst (λ k. Reach workers (at_rest k 0 [])) all start, tt)
abandoned_outnumber workers (suc n) h =
    let (l, r, done) = abandoned_outnumber workers n (omega arith) in
    let more : workers - n ≡ workers - suc n + 1 = omega arith in
    let one_idle = subst (λ k. Reach workers (at_rest k n l)) more r in
    (
      l ++ (answered unavailable ∷ []),
      subst (λ k. Reach workers (at_rest (workers - suc n) k (l ++ (answered unavailable ∷ []))))
          (omega arith) (one_more_thread workers (workers - suc n) n l one_idle),
      All-append IsAnswered l (answered unavailable ∷ []) done ((unavailable, refl), tt),
    )

-- A request with a thread has a permit.
thread-le : (l : List Stage) → total has_thread l ≤ total has_permit l
unfolding total
thread-le [] = omega arith
thread-le (arrived ∷ l) = omega (arith, thread-le l)
thread-le (connected ∷ l) = omega (arith, thread-le l)
thread-le (admitted ∷ l) = omega (arith, thread-le l)
thread-le (running ∷ l) = omega (arith, thread-le l)
thread-le (answered a ∷ l) = omega (arith, thread-le l)

-- In every state that the server reaches, the free connections and the requests that have one make up the
-- pool, the free permits and the requests that have one make up the semaphore, and the threads that are
-- idle, that run for a request and that are abandoned make up the executor; so at most four requests
-- run, at most ten have a connection, and with every thread abandoned no request can begin.
pub Reach-bounds :
    {workers : ℕ} {s : Server}
    → Reach workers s
    → IsBalanced workers s
      × (total has_thread s.requests ≤ max_concurrent_backtests)
      × (total has_connection s.requests ≤ max_pool_size)
      × (s.shared.abandoned ≡ workers → s.shared.idle ≡ 0)
Reach-bounds {s} r =
    let h = Reach-IsBalanced r in
    (
      h,
      omega (arith, h.permits, thread-le s.requests),
      omega (arith, h.connections),
      λ all. omega (arith, h.threads),
    )
