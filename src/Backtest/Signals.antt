-- ===== src/Backtest/Signals.antt =====
-- src/crypto_pipeline/backtest/signals.py: the position that a crossover of two averages asks for. A
-- series is its index with its values, and `none` is a NaN; its values are floats, so that the test
-- for a numeric dtype always passes.
use crypto_market_data_pipel.Prelude.{
  ℕ, zero, suc, ◌≡◌, ◌<◌, refl, sym, ap, ◌∙◌, Bool, true, false, ◌&&◌, ◌||◌, not, Option, none,
  some, List, [], ◌∷◌, ◌==◌, ltb, length, take, map, arith, if◌then◌else◌,
}
use crypto_market_data_pipel.Common.Errors.{Result, ok, err, value_error}
use crypto_market_data_pipel.Backtest.Numbers.{Numbers}

-- `shift(1).fillna(0)`
abbrev pub shift : ℕ → List (ℕ × ℕ) → List (ℕ × ℕ)
shift before [] = []
shift before ((ts, now) ∷ rest) = (ts, before) ∷ shift now rest

module _ (n : Numbers) where
  abbrev pub Series : Type 0
  Series = List (ℕ × Option n.F)

  -- `fast.index.equals(slow.index)`
  abbrev pub same_index : Series → Series → Bool
  same_index [] [] = true
  same_index ((t, f) ∷ fs) ((u, s) ∷ ss) = t == u && same_index fs ss
  same_index _ _ = false

  -- `isna().sum()`
  abbrev pub count_nan : Series → ℕ
  count_nan [] = 0
  count_nan ((t, none) ∷ rest) = suc (count_nan rest)
  count_nan ((t, some x) ∷ rest) = count_nan rest

  -- `isna().all()`, of a series that is not empty
  abbrev pub all_nan : Series → Bool
  all_nan s = count_nan s == length s

  -- A comparison with NaN is false.
  abbrev pub above : Option n.F → Option n.F → ℕ
  above (some f) (some s) = if n.ltb_f s f then 1 else 0
  above _ _ = 0

  -- `(fast > slow).astype(int)`
  abbrev pub crossover : Series → Series → List (ℕ × ℕ)
  crossover [] slow = []
  crossover (x ∷ fast) [] = []
  crossover ((t, f) ∷ fast) ((u, s) ∷ slow) = (t, above f s) ∷ crossover fast slow

  -- The tests before the comparison; each raises `ValueError`.
  abbrev pub is_comparable : Series → Series → Bool
  is_comparable fast slow =
      same_index fast slow
      && not (length fast == 0)
      && not (all_nan fast || all_nan slow)
      && not (ltb (count_nan slow) (count_nan fast))

  unfoldable pub sma_crossover : Series → Series → Result (List (ℕ × ℕ))
  sma_crossover fast slow =
      if is_comparable fast slow then ok (shift 0 (crossover fast slow)) else err value_error

  sma_crossover-ok :
      (fast slow : Series) (p : List (ℕ × ℕ))
      → sma_crossover fast slow ≡ ok p
      → (same_index fast slow ≡ true) × (p ≡ shift 0 (crossover fast slow))
  unfolding sma_crossover
  sma_crossover-ok fast slow p h = opened (is_comparable fast slow) refl h
    where
      opened :
          (b : Bool)
          → is_comparable fast slow ≡ b
          → (if b then ok (shift 0 (crossover fast slow)) else err value_error) ≡ ok p
          → (same_index fast slow ≡ true) × (p ≡ shift 0 (crossover fast slow))
      opened true e k = (ground arith, cc)
      opened false e k = cc

  -- Of two series with one index, the values of a shifted crossover up to a place are those before it.
  shift-crossover :
      (m before : ℕ) (fast slow fast' slow' : Series)
      → same_index fast slow ≡ true
      → same_index fast' slow' ≡ true
      → m < length fast
      → m < length fast'
      → take m fast ≡ take m fast'
      → take m slow ≡ take m slow'
      → take (suc m) (map (λ x. x.1) (shift before (crossover fast slow)))
        ≡ take (suc m) (map (λ x. x.1) (shift before (crossover fast' slow')))
  shift-crossover m before [] slow fast' slow' i i' l l' f s = elim l [ ]
  shift-crossover m before (x ∷ fast) slow [] slow' i i' l l' f s = elim l' [ ]
  shift-crossover m before (x ∷ fast) [] (y ∷ fast') slow' i i' l l' f s = cc
  shift-crossover m before (x ∷ fast) (z ∷ slow) (y ∷ fast') [] i i' l l' f s = cc
  shift-crossover zero before ((t, a) ∷ fast) (z ∷ slow) ((u, b) ∷ fast') (w ∷ slow') i i' l l' f
        s =
      refl
  shift-crossover (suc m) before ((t, a) ∷ fast) ((t', c) ∷ slow) ((u, b) ∷ fast') ((u', d) ∷ slow')
        i i' l l' f s =
      let same : above a c ≡ above b d = cc in
      let index : same_index fast slow ≡ true = ground arith in
      let index' : same_index fast' slow' ≡ true = ground arith in
      let fasts : take m fast ≡ take m fast' = cc in
      let slows : take m slow ≡ take m slow' = cc in
      let rest =
        shift-crossover m (above b d) fast slow fast' slow' index index' (omega arith) (omega arith)
          fasts slows in
      ap (λ b. before ∷ take (suc m) (map (λ x. x.1) (shift b (crossover fast slow)))) same
      ∙ ap (λ l. before ∷ l) rest

  -- No look-ahead: where two pairs of averages agree on their first `m` values, the positions that
  -- `sma_crossover` returns for them agree on their first `m + 1`, whatever comes after.
  pub sma_crossover_causal :
      (m : ℕ) (fast slow fast' slow' : Series) (p p' : List (ℕ × ℕ))
      → sma_crossover fast slow ≡ ok p
      → sma_crossover fast' slow' ≡ ok p'
      → m < length fast
      → m < length fast'
      → take m fast ≡ take m fast'
      → take m slow ≡ take m slow'
      → take (suc m) (map (λ x. x.1) p) ≡ take (suc m) (map (λ x. x.1) p')
  sma_crossover_causal m fast slow fast' slow' p p' h h' l l' f s =
      let (i, e) = sma_crossover-ok fast slow p h in
      let (i', e') = sma_crossover-ok fast' slow' p' h' in
      ap (λ q. take (suc m) (map (λ x. x.1) q)) e
      ∙ shift-crossover m 0 fast slow fast' slow' i i' l l' f s
      ∙ sym (ap (λ q. take (suc m) (map (λ x. x.1) q)) e')

  abbrev pub mark : ℕ × Bool → ℕ × ℕ
  mark (ts, held) = (ts, if held then 1 else 0)

  above-mark : (f s : Option n.F) → (b : Bool) × (above f s ≡ (if b then 1 else 0))
  above-mark none s = (false, refl)
  above-mark (some f) none = (false, refl)
  above-mark (some f) (some s) = (n.ltb_f s f, refl)

  shift-mark :
      (before : Bool) (fast slow : Series)
      → same_index fast slow ≡ true
      → (held : List (ℕ × Bool)) × (shift (if before then 1 else 0) (crossover fast slow)
          ≡ map mark held)
        × (map (λ x. x.0) (shift (if before then 1 else 0) (crossover fast slow))
            ≡ map (λ x. x.0) fast)
  shift-mark before [] slow i = ([], refl, refl)
  shift-mark before (x ∷ fast) [] i = cc
  shift-mark before ((t, f) ∷ fast) ((u, s) ∷ slow) i =
      let (now, e) = above-mark f s in
      let index : same_index fast slow ≡ true = ground arith in
      let (held, p, q) = shift-mark now fast slow index in
      (
        (t, before) ∷ held,
        ap (λ b. (t, if before then 1 else 0) ∷ shift b (crossover fast slow)) e
            ∙ ap (λ l. mark (t, before) ∷ l) p,
        ap (λ b. t ∷ map (λ x. x.0) (shift b (crossover fast slow))) e ∙ ap (λ l. t ∷ l) q,
      )

  -- The positions that `sma_crossover` returns stand at the times of its arguments, the first is 0 and
  -- each later one is 0 or 1.
  pub sma_crossover-mark :
      (fast slow : Series) (p : List (ℕ × ℕ))
      → sma_crossover fast slow ≡ ok p
      → (first : ℕ) × (held : List (ℕ × Bool)) × (p ≡ (first, 0) ∷ map mark held)
        × (map (λ x. x.0) p ≡ map (λ x. x.0) fast)
  unfolding sma_crossover
  sma_crossover-mark [] [] p h = ground arith
  sma_crossover-mark [] (y ∷ slow) p h = ground arith
  sma_crossover-mark (x ∷ fast) [] p h = ground arith
  sma_crossover-mark ((t, f) ∷ fast) ((u, s) ∷ slow) p h =
      let (i, e) = sma_crossover-ok ((t, f) ∷ fast) ((u, s) ∷ slow) p h in
      let (now, d) = above-mark f s in
      let index : same_index fast slow ≡ true = ground arith in
      let (held, k, q) = shift-mark now fast slow index in
      (
        t,
        held,
        e ∙ ap (λ b. (t, 0) ∷ shift b (crossover fast slow)) d ∙ ap (λ l. (t, 0) ∷ l) k,
        ap (λ l. map (λ x. x.0) l) e
            ∙ ap (λ b. t ∷ map (λ x. x.0) (shift b (crossover fast slow))) d
            ∙ ap (λ l. t ∷ l) q,
      )
