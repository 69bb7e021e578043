-- ===== src/Backtest/Indicators/Causal.antt =====
-- `rsi` does not look ahead.
use crypto_market_data_pipel.Prelude.{
  ℕ, zero, suc, ◌+◌, ◌-◌, ◌≡◌, ◌≤◌, ◌<◌, ◌⊎◌, inl, inr, refl, sym, ap, ◌∙◌, List, [], ◌∷◌, ◌++◌,
  map, take-map, length, length-map, length-append, take, drop, arith, ltb-false_of_le,
  if◌then◌else◌,
}
use crypto_market_data_pipel.Common.Errors.{Result, ok, err, ◌>>=◌, value_error}
use crypto_market_data_pipel.Backtest.Indicators.Prefixes.{
  take-drop, take-repeat, take-zip_with, length-zip_with, length-repeat, length-drop,
}
use crypto_market_data_pipel.Backtest.Indicators.{
  Floats, repeat, zip_with, diff_from, diff, set_first, wilder, point, rsi,
}

-- What pandas documents of `ewm`: a value for each value, which depends on those up to its own.
pub record IsSmoothing (f : Floats) : Type 0 where
  pub length-ewm_mean : (window : ℕ) (xs : List f.F) → length (f.ewm_mean window xs) ≡ length xs
  pub take-ewm_mean :
      (m window : ℕ) (xs ys : List f.F)
      → take m xs ≡ take m ys
      → take m (f.ewm_mean window xs) ≡ take m (f.ewm_mean window ys)

below_or_not : (m window : ℕ) → (window + (m - window) ≤ m) ⊎ (m - window ≡ 0)
below_or_not m window = omega arith

module _ (f : Floats) where
  length-diff_from : (x : f.F) (xs : List f.F) → length (diff_from f x xs) ≡ length xs
  length-diff_from x [] = refl
  length-diff_from x (y ∷ ys) = ap suc (length-diff_from y ys)

  length-diff : (xs : List f.F) → length (diff f xs) ≡ length xs
  length-diff [] = refl
  length-diff (x ∷ xs) = ap suc (length-diff_from x xs)

  take-diff_from :
      (m : ℕ) (x : f.F) (xs : List f.F) → take m (diff_from f x xs) ≡ diff_from f x (take m xs)
  take-diff_from zero x xs = refl
  take-diff_from (suc m) x [] = refl
  take-diff_from (suc m) x (y ∷ ys) = ap (λ l. f.sub y x ∷ l) (take-diff_from m y ys)

  take-diff : (m : ℕ) (xs : List f.F) → take m (diff f xs) ≡ diff f (take m xs)
  take-diff zero xs = refl
  take-diff (suc m) [] = refl
  take-diff (suc m) (x ∷ xs) = ap (λ l. f.nan ∷ l) (take-diff_from m x xs)

  -- The part of a series behind its first values, with a new first one.
  set_first-ok :
      (seed : f.F) (xs : List f.F)
      → 0 < length xs
      → (tail : List f.F) × (set_first f seed xs ≡ ok tail)
        × (tail ≡ seed ∷ drop 1 xs)
        × (length tail ≡ length xs)
  set_first-ok seed [] h = absurd (omega arith)
  set_first-ok seed (x ∷ xs) h = (_, refl, refl, refl)

  module _ (smoothing : IsSmoothing f) where
    -- What `_wilder` returns for a series that is longer than the window.
    abbrev smooth : ℕ → List f.F → List f.F
    smooth window xs =
        repeat window f.nan
        ++ f.ewm_mean window (f.mean (take window (drop 1 xs)) ∷ drop 1 (drop window xs))

    wilder-smooth :
        (window : ℕ) (xs : List f.F)
        → window < length xs
        → (wilder f xs window ≡ ok (smooth window xs)) × (length (smooth window xs) ≡ length xs)
    unfolding wilder
    wilder-smooth window xs h =
        let size = length-drop window xs (omega arith) in
        let (tail, e, made, long) =
          set_first-ok (f.mean (take window (drop 1 xs))) (drop window xs) (omega arith) in
        (
          ap (λ t. t >>= (λ l. ok (repeat window f.nan ++ f.ewm_mean window l))) e
              ∙ ap (λ l. ok (repeat window f.nan ++ f.ewm_mean window l)) made,
          length-append (repeat window f.nan) _
              ∙ omega (
                arith,
                length-repeat window f.nan,
                smoothing.length-ewm_mean window
                    (f.mean (take window (drop 1 xs)) ∷ drop 1 (drop window xs)),
                ap length made,
              ),
        )

    take-smooth :
        (m window k : ℕ) (xs ys : List f.F)
        → m ≤ window + k
        → window + k ≤ m ⊎ (k ≡ 0)
        → take m xs ≡ take m ys
        → take m (smooth window xs) ≡ take m (smooth window ys)
    take-smooth m window zero xs ys h l e = take-repeat m window zero f.nan _ _ h refl
    take-smooth m window (suc j) xs ys h (inr none_left) e = absurd (omega arith)
    take-smooth m window (suc j) xs ys h (inl l) e =
        let seed = ap f.mean (take-drop 1 window m xs ys (omega arith) e) in
        let rest =
          take-drop 1 j (suc j) (drop window xs) (drop window ys) (omega arith)
            (take-drop window (suc j) m xs ys l e) in
        take-repeat m window (suc j) f.nan _ _ h
          (smoothing.take-ewm_mean (suc j) window _ _ (λ i. seed i ∷ rest i))

    take-both :
        (m window : ℕ) (xs ys : List f.F)
        → take m xs ≡ take m ys
        → take m (smooth window xs) ≡ take m (smooth window ys)
    take-both m window xs ys e =
        take-smooth m window (m - window) xs ys (omega arith) (below_or_not m window) e

    -- The gains and the losses of a series.
    abbrev gains : List f.F → List f.F
    gains values = map f.at_least_zero (diff f values)

    abbrev losses : List f.F → List f.F
    losses values = map (λ x. f.neg (f.at_most_zero x)) (diff f values)

    take-of_diff :
        (g : f.F → f.F) (m window : ℕ) (xs ys : List f.F)
        → take m xs ≡ take m ys
        → take m (smooth window (map g (diff f xs))) ≡ take m (smooth window (map g (diff f ys)))
    take-of_diff g m window xs ys e =
        take-both m window (map g (diff f xs)) (map g (diff f ys))
          (of_take xs ∙ ap (λ l. map g (diff f l)) e ∙ sym (of_take ys))
      where
        of_take : (l : List f.F) → take m (map g (diff f l)) ≡ map g (diff f (take m l))
        of_take l = take-map g m (diff f l) ∙ ap (map g) (take-diff m l)

    -- The points of the index, for a series that is longer than the window.
    abbrev points : ℕ → List f.F → List f.F
    points window xs = zip_with (point f) (smooth window (gains xs)) (smooth window (losses xs))

    rsi-points :
        (window : ℕ) (xs : List f.F)
        → 0 < window
        → window < length xs
        → (rsi f xs window ≡ ok (points window xs)) × (length (points window xs) ≡ length xs)
    unfolding rsi wilder
    rsi-points window xs pos longer =
        let long : (g : f.F → f.F) → length (map g (diff f xs)) ≡ length xs =
          λ g. length-map g (diff f xs) ∙ length-diff xs in
        let (gain, size) = wilder-smooth window (gains xs) (omega (arith, long f.at_least_zero)) in
        let (loss, size') =
          wilder-smooth window (losses xs) (omega (arith, long (λ x. f.neg (f.at_most_zero x)))) in
        let after : List f.F → Result (List f.F) → Result (List f.F) =
          λ g r. r >>= (λ l. ok (zip_with (point f) g l)) in
        let run : Result (List f.F) → Result (List f.F) =
          λ r. r >>= (λ g. after g (wilder f (losses xs) window)) in
        (
          ap (λ b. if b then err value_error else run (wilder f (gains xs) window))
                (ltb-false_of_le window 1 (omega arith))
              ∙ ap run gain
              ∙ ap (after (smooth window (gains xs))) loss,
          length-zip_with (point f) (smooth window (gains xs)) (smooth window (losses xs)) (
                omega
                  (arith, size, size', long f.at_least_zero, long (λ x. f.neg (f.at_most_zero x))))
              ∙ size
              ∙ long f.at_least_zero,
        )

    -- The index does not look ahead. With a smoothing that gives a value for each value, which depends on
    -- those up to its own: for two series that are longer than the window, which is not 0, `rsi` returns
    -- a value for each of theirs, and where the series agree on their first m values, the results agree
    -- on their first m values.
    pub rsi_causal :
        (m window : ℕ) (xs ys : List f.F)
        → 0 < window
        → window < length xs
        → window < length ys
        → take m xs ≡ take m ys
        → (r : List f.F) × (s : List f.F) × (rsi f xs window ≡ ok r)
          × (rsi f ys window ≡ ok s)
          × (length r ≡ length xs)
          × (length s ≡ length ys)
          × (take m r ≡ take m s)
    rsi_causal m window xs ys pos longer longer' e =
        let (p, size) = rsi-points window xs pos longer in
        let (q, size') = rsi-points window ys pos longer' in
        let gain = take-of_diff f.at_least_zero m window xs ys e in
        let loss = take-of_diff (λ x. f.neg (f.at_most_zero x)) m window xs ys e in
        let same =
          take-zip_with (point f) m _ _
          ∙ (λ i. zip_with (point f) (gain i) (loss i))
          ∙ sym (take-zip_with (point f) m _ _) in
        (_, _, p, q, size, size', same)
