-- ===== src/Api/Capacity/Progress.antt =====
-- Every request is answered: each step brings the server nearer to rest, and until then there is one.
use crypto_market_data_pipel.Prelude.{
  ℕ, zero, suc, ◌+◌, ◌≡◌, ◌≤◌, ◌<◌, ◌⊎◌, inl, inr, refl, ap, List, [], ◌∷◌, ◌++◌, All, arith,
}
use crypto_market_data_pipel.Api.Capacity.{
  max_pool_size, max_concurrent_backtests, Answer, Stage, arrived, connected, admitted, running,
  answered, Shared, Move, connect, no_connection, refuse, acquire, not_in_time, begin, cancel,
  finish, time_out, Server, Step, pick, thread_ends, Steps, none_left, then, Reach, later,
}
use crypto_market_data_pipel.Api.Capacity.Balance.{
  total, weigh, has_connection, has_permit, has_thread, IsBalanced, Reach-IsBalanced, IsAnswered,
}

-- The steps that a request has ahead at most, with the end of a thread that it leaves behind.
abbrev pub rank : Stage → ℕ
rank arrived = 5
rank connected = 4
rank admitted = 3
rank running = 2
rank (answered a) = 0

abbrev pub work : Server → ℕ
work s = total rank s.requests + s.shared.abandoned

Move-rank :
    {p q : Shared} {a b : Stage} → Move p a q b → q.abandoned + rank b + 1 ≤ p.abandoned + rank a
Move-rank (connect h) = omega arith
Move-rank no_connection = omega arith
Move-rank refuse = omega arith
Move-rank (acquire h) = omega arith
Move-rank not_in_time = omega arith
Move-rank (begin h) = omega arith
Move-rank cancel = omega arith
Move-rank finish = omega arith
Move-rank time_out = omega arith

Step-work : {s t : Server} → Step s t → work t + 1 ≤ work s
Step-work (pick front back {a} {b} e mv) = omega (arith, weigh rank front back a b e, Move-rank mv)
Step-work (thread_ends some_left) = omega arith

Steps-work : {s t : Server} {k : ℕ} → Steps s k t → work t + k ≤ work s
Steps-work none_left = omega arith
Steps-work (then steps step) = omega (arith, Steps-work steps, Step-work step)

Steps-Reach :
    {workers : ℕ} {s : Server} {k : ℕ} {t : Server}
    → Reach workers s
    → Steps s k t
    → Reach workers t
Steps-Reach r none_left = r
Steps-Reach r (then steps step) = later (Steps-Reach r steps) step

-- A request that is not answered, with those before and behind it.
abbrev Waits : List Stage → Type 0
Waits l =
    (front : List Stage) × (a : Stage) × (back : List Stage) × (l ≡ front ++ (a ∷ back))
    × (0 < rank a)

Waits-cons : (a : Stage) (l : List Stage) → Waits l → Waits (a ∷ l)
Waits-cons a l (front, b, back, e, h) = (a ∷ front, b, back, ap (λ r. a ∷ r) e, h)

IsAnswered-or_Waits : (l : List Stage) → All IsAnswered l ⊎ Waits l
IsAnswered-or_Waits [] = inl tt
IsAnswered-or_Waits (arrived ∷ l) = inr ([], arrived, l, refl, omega arith)
IsAnswered-or_Waits (connected ∷ l) = inr ([], connected, l, refl, omega arith)
IsAnswered-or_Waits (admitted ∷ l) = inr ([], admitted, l, refl, omega arith)
IsAnswered-or_Waits (running ∷ l) = inr ([], running, l, refl, omega arith)
IsAnswered-or_Waits (answered a ∷ l) = elim (IsAnswered-or_Waits l) [
  | inl done ↦ inl ((a, refl), done)
  | inr h ↦ inr (Waits-cons (answered a) l h)
]

move_of : (p : Shared) (a : Stage) → 0 < rank a → (q : Shared) × (b : Stage) × Move p a q b
move_of p arrived h = (_, _, no_connection)
move_of p connected h = (_, _, not_in_time)
move_of p admitted h = (_, _, cancel)
move_of p running h = (_, _, finish)
move_of p (answered a) h = absurd (omega arith)

step_of : (s : Server) → Waits s.requests → (t : Server) × Step s t
step_of s (front, a, back, e, h) =
    let (q, b, mv) = move_of s.shared a h in (_, pick front back e mv)

total-IsAnswered :
    (w : Stage → ℕ) (l : List Stage)
    → ((a : Answer) → w (answered a) ≡ 0)
    → All IsAnswered l
    → total w l ≡ 0
unfolding total
total-IsAnswered w [] none_then h = refl
total-IsAnswered w (s ∷ l) none_then ((a, e), hs) =
    omega (arith, ap w e, none_then a, total-IsAnswered w l none_then hs)

-- Every request is answered, and all is given back.
pub record IsDone (workers : ℕ) (s : Server) : Type 0 where
  pub answers : All IsAnswered s.requests
  pub free : s.shared.free ≡ max_pool_size
  pub permits : s.shared.permits ≡ max_concurrent_backtests
  pub idle : s.shared.idle ≡ workers
  pub abandoned : s.shared.abandoned ≡ 0

done_or_step :
    {workers : ℕ} (s : Server) → IsBalanced workers s → IsDone workers s ⊎ ((t : Server) × Step s t)
done_or_step s h = elim (IsAnswered-or_Waits s.requests) [
  | inr waits ↦ inr (step_of s waits)
  | inl done ↦ elim (zero_or_more s.shared.abandoned) [
    | inl none_there ↦ inl (record {
      answers = done;
      free =
          omega (arith, h.connections, total-IsAnswered has_connection s.requests (λ a. refl) done);
      permits = omega (arith, h.permits, total-IsAnswered has_permit s.requests (λ a. refl) done);
      idle = omega (arith, h.threads, total-IsAnswered has_thread s.requests (λ a. refl) done);
      abandoned = none_there;
    })
    | inr some_there ↦ inr (_, thread_ends some_there)
  ]
]
  where
    zero_or_more : (n : ℕ) → (n ≡ 0) ⊎ (0 < n)
    zero_or_more zero = inl refl
    zero_or_more (suc n) = inr (omega arith)

-- Every request is answered: from a state that the server reaches, and with no request that comes in,
-- it takes at most `work` steps, whichever they are, and after any of them either every request is
-- answered, every connection, permit and thread is free again, or a further step is there to take.
pub Steps-IsDone :
    {workers k : ℕ} {s t : Server}
    → Reach workers s
    → Steps s k t
    → (k ≤ work s) × (IsDone workers t ⊎ ((u : Server) × Step t u))
Steps-IsDone {t} r steps =
    (omega (arith, Steps-work steps), done_or_step t (Reach-IsBalanced (Steps-Reach r steps)))
