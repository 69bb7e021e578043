-- ===== src/Ingester/Backoff.antt =====
-- The reconnect loop of `BinanceIngester.run`: the delay between connections.
use native.Mathlib.Nat.{mul-le-mul, pow-suc}
use crypto_market_data_pipel.Prelude.{
  ℕ, zero, suc, ◌*◌, ◌^◌, ◌≤◌, ◌≡◌, ap, ◌∙◌, List, [], ◌∷◌, min, leb, arith, Bool-cases, inl, inr,
  sym, length, ◌<◌, if◌then◌else◌, All,
}

abbrev pub backoff_base : ℕ
backoff_base = 5

abbrev pub backoff_max : ℕ
backoff_max = 60

abbrev pub healthy_uptime : ℕ
healthy_uptime = 60

-- One connection that ended by ConnectionClosed, OSError or TimeoutError: how many seconds it was up,
-- and `random.uniform(0.5, 1.5)` in thousandths.
pub record Attempt : Type 0 where
  pub uptime : ℕ
  pub jitter : ℕ

-- The delay that is slept after an attempt, before the jitter: a healthy connection starts over.
abbrev pub slept_delay : ℕ → Attempt → ℕ
slept_delay delay a = if leb healthy_uptime a.uptime then backoff_base else delay

-- `delay = min(delay * 2, BACKOFF_MAX_S)`
abbrev pub next_delay : ℕ → Attempt → ℕ
next_delay delay a = min (slept_delay delay a * 2) backoff_max

-- `asyncio.sleep(delay * random.uniform(0.5, 1.5))`, in milliseconds
abbrev pub sleep_ms : ℕ → Attempt → ℕ
sleep_ms delay a = slept_delay delay a * a.jitter

-- The delay after the given attempts, and the sleeps between them.
unfoldable pub delay_after : ℕ → List Attempt → ℕ
delay_after delay [] = delay
delay_after delay (a ∷ rest) = delay_after (next_delay delay a) rest

unfoldable pub sleeps : ℕ → List Attempt → List ℕ
sleeps delay [] = []
sleeps delay (a ∷ rest) = sleep_ms delay a ∷ sleeps (next_delay delay a) rest

abbrev pub IsJittered : List Attempt → Type 0
IsJittered = All (λ a. (500 ≤ a.jitter) × (a.jitter ≤ 1500))

sleep_ms_bounds :
    (delay : ℕ) (a : Attempt)
    → backoff_base ≤ delay
    → delay ≤ backoff_max
    → 500 ≤ a.jitter
    → a.jitter ≤ 1500
    → (2_500 ≤ sleep_ms delay a) × (sleep_ms delay a ≤ 90_000)
sleep_ms_bounds delay a lo hi jl jh =
    let d = slept_delay delay a in
    let from : backoff_base ≤ d = ground arith in
    let to : d ≤ backoff_max = ground arith in (mul-le-mul from jl, mul-le-mul to jh)

pub next_delay_bounds :
    (delay : ℕ) (a : Attempt)
    → backoff_base ≤ delay
    → delay ≤ backoff_max
    → (backoff_base ≤ next_delay delay a) × (next_delay delay a ≤ backoff_max)
next_delay_bounds delay a lo hi = ground arith

-- Every sleep between two connections lasts from 2.5 to 90 seconds.
sleeps_bounds :
    (delay : ℕ) (attempts : List Attempt)
    → backoff_base ≤ delay
    → delay ≤ backoff_max
    → IsJittered attempts
    → All (λ ms. (2_500 ≤ ms) × (ms ≤ 90_000)) (sleeps delay attempts)
unfolding sleeps
sleeps_bounds delay [] lo hi j = tt
sleeps_bounds delay (a ∷ rest) lo hi j =
    let (lo', hi') = next_delay_bounds delay a lo hi in
    (sleep_ms_bounds delay a lo hi j.0.0 j.0.1, sleeps_bounds (next_delay delay a) rest lo' hi' j.1)

abbrev pub AllShort : List Attempt → Type 0
AllShort = All (λ a. a.uptime < healthy_uptime)

pow-pos : (n : ℕ) → 1 ≤ 2 ^ n
pow-pos zero = omega arith
pow-pos (suc n) = rw pow-suc (omega (arith, pow-pos n))

doubled :
    (d p : ℕ)
    → 1 ≤ p
    → d ≤ backoff_max
    → min (min (d * 2) backoff_max * p) backoff_max ≡ min (d * (p * 2)) backoff_max
doubled d p pos h = elim (Bool-cases (leb (d * 2) backoff_max)) [
  | inl small ↦ let e : min (d * 2) backoff_max ≡ d * 2 = ground arith in rw e (omega arith)
  | inr large ↦
      let e : min (d * 2) backoff_max ≡ 60 = ground arith in
      let big : 60 ≤ d * 2 = ground arith in
      let product : 60 * 1 ≤ d * 2 * p = mul-le-mul big pos in rw e (omega arith)
]

-- The backoff is exponential and capped: after `n` connections in a row that were up for less than a
-- minute the delay is the smaller of `d * 2 ^ n` and 60 seconds.
delay_after_short :
    (d : ℕ) (attempts : List Attempt)
    → d ≤ backoff_max
    → AllShort attempts
    → delay_after d attempts ≡ min (d * 2 ^ length attempts) backoff_max
unfolding delay_after
delay_after_short d [] h short = omega arith
delay_after_short d (a ∷ rest) h short =
    let p = 2 ^ length rest in
    let step : next_delay d a ≡ min (d * 2) backoff_max = ground (arith, short.0) in
    let within : next_delay d a ≤ backoff_max = omega (arith, step) in
    delay_after_short (next_delay d a) rest within short.1
    ∙ ap (λ n. min (n * p) backoff_max) step
    ∙ doubled d p (pow-pos (length rest)) h
    ∙ ap (λ n. min (d * n) backoff_max) (sym (pow-suc 2 (length rest)))
