-- ===== src/Examples/Indicators.antt =====
-- An instance for src/crypto_pipeline/backtest/indicators.py.
use crypto_market_data_pipel.Prelude.{
  ℕ, zero, suc, ◌+◌, ◌-◌, ◌*◌, ◌/◌, ◌≡◌, refl, sym, ap, ◌∙◌, max, min, List, [], ◌∷◌, length, take,
  ◌==◌, arith,
}
use crypto_market_data_pipel.Common.Errors.{ok}
use crypto_market_data_pipel.Backtest.Indicators.{Floats, rsi}
use crypto_market_data_pipel.Backtest.Indicators.Causal.{IsSmoothing, rsi_causal}
use crypto_market_data_pipel.Examples.Backtest.{sum}

abbrev smoothed_from : ℕ → ℕ → List ℕ → List ℕ
smoothed_from window y [] = []
smoothed_from window y (x ∷ xs) =
    let next = (y * (window - 1) + x) / window in next ∷ smoothed_from window next xs

abbrev smoothed : ℕ → List ℕ → List ℕ
smoothed window [] = []
smoothed window (x ∷ xs) = x ∷ smoothed_from window x xs

-- Whole numbers, written with 1000 for zero, and 0 for NaN.
abbrev floats : Floats
floats = record {
  F = ℕ;
  nan = 0;
  one = 1001;
  fifty = 1050;
  hundred = 1100;
  add = λ a b. a + b - 1000;
  sub = λ a b. a + 1000 - b;
  div = λ a b. 1000 + (a - 1000) / (b - 1000);
  neg = λ a. 2000 - a;
  is_zero = λ a. a == 1000;
  at_least_zero = λ a. max a 1000;
  at_most_zero = λ a. min a 1000;
  mean = λ xs. sum xs / length xs;
  ewm_mean = smoothed;
}

take-smoothed_from :
    (m window y : ℕ) (xs : List ℕ)
    → take m (smoothed_from window y xs) ≡ smoothed_from window y (take m xs)
take-smoothed_from zero window y xs = refl
take-smoothed_from (suc m) window y [] = refl
take-smoothed_from (suc m) window y (x ∷ xs) =
    ap (λ l. (y * (window - 1) + x) / window ∷ l)
      (take-smoothed_from m window ((y * (window - 1) + x) / window) xs)

take-smoothed :
    (m window : ℕ) (xs : List ℕ) → take m (smoothed window xs) ≡ smoothed window (take m xs)
take-smoothed zero window xs = refl
take-smoothed (suc m) window [] = refl
take-smoothed (suc m) window (x ∷ xs) = ap (λ l. x ∷ l) (take-smoothed_from m window x xs)

length-smoothed_from : (window y : ℕ) (xs : List ℕ) → length (smoothed_from window y xs) ≡ length xs
length-smoothed_from window y [] = refl
length-smoothed_from window y (x ∷ xs) =
    ap suc (length-smoothed_from window ((y * (window - 1) + x) / window) xs)

length-smoothed : (window : ℕ) (xs : List ℕ) → length (smoothed window xs) ≡ length xs
length-smoothed window [] = refl
length-smoothed window (x ∷ xs) = ap suc (length-smoothed_from window x xs)

smoothing : IsSmoothing floats
smoothing = record {
  length-ewm_mean = length-smoothed;
  take-ewm_mean = λ m window xs ys e.
      take-smoothed m window xs ∙ ap (smoothed window) e ∙ sym (take-smoothed m window ys);
}

-- A series that falls after its fourth value, and one that goes on to rise.
abbrev falls : List ℕ
falls = 1010 ∷ 1020 ∷ 1040 ∷ 1060 ∷ 1020 ∷ []

abbrev rises : List ℕ
rises = 1010 ∷ 1020 ∷ 1040 ∷ 1060 ∷ 1080 ∷ []

-- Only gains up to the fourth value, and then a loss.
rsi_test : rsi floats falls 2 ≡ ok (1000 ∷ 1000 ∷ 1100 ∷ 1100 ∷ 1000 ∷ [])
unfolding rsi
rsi_test = refl

rsi_causal_example :
    (r : List ℕ) × (s : List ℕ) × (rsi floats falls 2 ≡ ok r)
    × (rsi floats rises 2 ≡ ok s)
    × (length r ≡ 5)
    × (length s ≡ 5)
    × (take 4 r ≡ take 4 s)
rsi_causal_example =
    rsi_causal floats smoothing 4 2 falls rises (omega arith) (omega arith) (omega arith) refl
