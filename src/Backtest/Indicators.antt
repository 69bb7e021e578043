-- ===== src/Backtest/Indicators.antt =====
-- `rsi` of src/crypto_pipeline/backtest/indicators.py, on the list of the values of a series; the
-- labels of its index are all different. `sma` is in Runner.
pub mod Prefixes
pub mod Causal
use crypto_market_data_pipel.Prelude.{
  ℕ, zero, suc, Bool, true, false, not, ◌&&◌, List, [], ◌∷◌, ◌++◌, map, take, drop, ltb,
  if◌then◌else◌,
}
use crypto_market_data_pipel.Common.Errors.{Result, ok, err, ◌>>=◌, value_error, index_error}

-- Floats, with NaN among them, and what pandas does with them.
pub record Floats : Type 1 where
  pub F : Type 0
  pub nan : F
  pub one : F
  pub fifty : F
  pub hundred : F
  pub add : F → F → F
  pub sub : F → F → F
  pub div : F → F → F
  pub neg : F → F
  -- `== 0`, which NaN is not
  pub is_zero : F → Bool
  -- A value under `clip(lower=0)` and `clip(upper=0)`.
  pub at_least_zero : F → F
  pub at_most_zero : F → F
  -- `mean()`
  pub mean : List F → F
  -- `ewm(alpha=1 / window, adjust=False).mean()`
  pub ewm_mean : ℕ → List F → List F

module _ {ℓ} {A : Type ℓ} where
  abbrev pub repeat : ℕ → A → List A
  repeat zero a = []
  repeat (suc n) a = a ∷ repeat n a

  abbrev pub zip_with : (A → A → A) → List A → List A → List A
  zip_with f [] ys = []
  zip_with f (x ∷ xs) [] = []
  zip_with f (x ∷ xs) (y ∷ ys) = f x y ∷ zip_with f xs ys

module _ (f : Floats) where
  abbrev pub diff_from : f.F → List f.F → List f.F
  diff_from before [] = []
  diff_from before (x ∷ xs) = f.sub x before ∷ diff_from x xs

  -- `values.diff()`
  abbrev pub diff : List f.F → List f.F
  diff [] = []
  diff (x ∷ xs) = f.nan ∷ diff_from x xs

  -- `tail.iloc[0] = seed`
  abbrev pub set_first : f.F → List f.F → Result (List f.F)
  set_first seed [] = err index_error
  set_first seed (x ∷ xs) = ok (seed ∷ xs)

  -- `smoothed` has the last labels of the series, so that `reindex` puts NaN before its values.
  unfoldable pub wilder : List f.F → ℕ → Result (List f.F)
  wilder series window = do
    let seed = f.mean (take window (drop 1 series))
    tail ← set_first seed (drop window series)
    ok (repeat window f.nan ++ f.ewm_mean window tail)

  -- A value of the index from the average gain and loss: the quotient, then the two assignments.
  abbrev pub point : f.F → f.F → f.F
  point avg_gain avg_loss =
      let rs = f.div avg_gain avg_loss in
      let value = f.sub f.hundred (f.div f.hundred (f.add f.one rs)) in
      let flat = f.is_zero avg_gain && f.is_zero avg_loss in
      let value' = if f.is_zero avg_loss && not flat then f.hundred else value in
      if flat then f.fifty else value'

  unfoldable pub rsi : List f.F → ℕ → Result (List f.F)
  unfolding wilder
  rsi values window =
      let delta = diff values in
      let gain = map f.at_least_zero delta in
      let loss = map (λ x. f.neg (f.at_most_zero x)) delta in
      if ltb window 1 then err value_error else (do
        avg_gain ← wilder gain window
        avg_loss ← wilder loss window
        ok (zip_with point avg_gain avg_loss))
