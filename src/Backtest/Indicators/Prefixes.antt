-- ===== src/Backtest/Indicators/Prefixes.antt =====
-- Lists that agree on their first elements.
use crypto_market_data_pipel.Prelude.{
  ℕ, zero, suc, ◌+◌, ◌≡◌, ◌≤◌, refl, ap, List, [], ◌∷◌, ◌++◌, length, take, drop, arith,
}
use crypto_market_data_pipel.Backtest.Indicators.{repeat, zip_with}

module _ {ℓ} {A : Type ℓ} where
  take-le : (k m : ℕ) (xs ys : List A) → k ≤ m → take m xs ≡ take m ys → take k xs ≡ take k ys
  take-le zero m xs ys h e = refl
  take-le (suc k) zero xs ys h e = absurd (omega arith)
  take-le (suc k) (suc m) [] [] h e = refl
  take-le (suc k) (suc m) [] (y ∷ ys) h e = cc
  take-le (suc k) (suc m) (x ∷ xs) [] h e = cc
  take-le (suc k) (suc m) (x ∷ xs) (y ∷ ys) h e =
      let rest = take-le k m xs ys (omega arith) cc in cc

  pub take-drop :
      (w k m : ℕ) (xs ys : List A)
      → w + k ≤ m
      → take m xs ≡ take m ys
      → take k (drop w xs) ≡ take k (drop w ys)
  take-drop zero k m xs ys h e = take-le k m xs ys (omega arith) e
  take-drop (suc w) k zero xs ys h e = absurd (omega arith)
  take-drop (suc w) k (suc m) [] [] h e = refl
  take-drop (suc w) k (suc m) [] (y ∷ ys) h e = cc
  take-drop (suc w) k (suc m) (x ∷ xs) [] h e = cc
  take-drop (suc w) k (suc m) (x ∷ xs) (y ∷ ys) h e = take-drop w k m xs ys (omega arith) cc

  pub take-repeat :
      (m w k : ℕ) (a : A) (xs ys : List A)
      → m ≤ w + k
      → take k xs ≡ take k ys
      → take m (repeat w a ++ xs) ≡ take m (repeat w a ++ ys)
  take-repeat zero w k a xs ys h e = refl
  take-repeat (suc m) zero k a xs ys h e = take-le (suc m) k xs ys (omega arith) e
  take-repeat (suc m) (suc w) k a xs ys h e =
      ap (λ l. a ∷ l) (take-repeat m w k a xs ys (omega arith) e)

  pub take-zip_with :
      (f : A → A → A) (m : ℕ) (xs ys : List A)
      → take m (zip_with f xs ys) ≡ zip_with f (take m xs) (take m ys)
  take-zip_with f zero xs ys = refl
  take-zip_with f (suc m) [] ys = refl
  take-zip_with f (suc m) (x ∷ xs) [] = refl
  take-zip_with f (suc m) (x ∷ xs) (y ∷ ys) = ap (λ l. f x y ∷ l) (take-zip_with f m xs ys)

  pub length-zip_with :
      (f : A → A → A) (xs ys : List A)
      → length xs ≡ length ys
      → length (zip_with f xs ys) ≡ length xs
  length-zip_with f [] ys h = refl
  length-zip_with f (x ∷ xs) [] h = absurd (omega arith)
  length-zip_with f (x ∷ xs) (y ∷ ys) h = ap suc (length-zip_with f xs ys (omega arith))

  pub length-repeat : (n : ℕ) (a : A) → length (repeat n a) ≡ n
  length-repeat zero a = refl
  length-repeat (suc n) a = ap suc (length-repeat n a)

  pub length-drop : (n : ℕ) (xs : List A) → n ≤ length xs → n + length (drop n xs) ≡ length xs
  length-drop zero xs h = omega arith
  length-drop (suc n) [] h = absurd (omega arith)
  length-drop (suc n) (x ∷ xs) h = omega (arith, length-drop n xs (omega arith))
