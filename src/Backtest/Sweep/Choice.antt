-- ===== src/Backtest/Sweep/Choice.antt =====
-- What `run_sweep` chooses.
use mathlib.Core.Path.{subst}
use crypto_market_data_pipel.Prelude.{
  ℕ, ◌≤◌, ◌<◌, ◌≡◌, refl, sym, Bool, true, false, Option, none, some, List, [], ◌∷◌, ◌++◌, length,
  filterb, All, arith, if◌then◌else◌, take-append-drop,
}
use crypto_market_data_pipel.Common.Errors.{Result, ok, err, >>=-ok, ok-inj}
use crypto_market_data_pipel.Common.Candle.{Candle}
use crypto_market_data_pipel.Backtest.Numbers.{Numbers}
use crypto_market_data_pipel.Backtest.Runner.{BacktestMetrics, Settings, run_backtest_metrics}
use crypto_market_data_pipel.Backtest.Sweep.{
  Entry, SweepResult, split_chronological, is_skipped, rank, is_eligible, below, best_of, choose,
  sort_ranked, run_sweep,
}

-- What holds of `<` on floats that are no NaN.
pub record IsOrder (n : Numbers) : Type 0 where
  pub irreflexive : (x : n.F) → n.ltb_f x x ≡ false
  pub transitive : (x y z : n.F) → n.ltb_f x y ≡ true → n.ltb_f y z ≡ true → n.ltb_f x z ≡ true

module _ (n : Numbers) where
  -- A rank entry comes from a run on these candles with windows that fit them.
  pub record IsRun (candles : List (Candle n.D)) (set : Settings n) (r : Entry n) : Type 0 where
    pub ordered : r.fast_window < r.slow_window
    pub fits : r.slow_window ≤ length candles
    pub ran : run_backtest_metrics n candles set r.fast_window r.slow_window ≡ ok r.metrics

  rank-IsRun :
      (candles : List (Candle n.D)) (set : Settings n) (grid : List (ℕ × ℕ))
      (ranked : List (Entry n))
      → rank n candles set grid ≡ ok ranked
      → All (IsRun candles set) ranked
  unfolding rank
  rank-IsRun candles set [] [] h = tt
  rank-IsRun candles set [] (r ∷ ranked) h = cc
  rank-IsRun candles set ((fast, slow) ∷ grid) ranked h =
      split (rank-IsRun candles set grid) (is_skipped n candles fast slow) refl
        (run_backtest_metrics n candles set fast slow) refl (rank n candles set grid) refl
    where
      split :
          ((later : List (Entry n))
            → rank n candles set grid ≡ ok later
            → All (IsRun candles set) later)
          → (skipped : Bool) → is_skipped n candles fast slow ≡ skipped
          → (ran : Result (BacktestMetrics n)) → run_backtest_metrics n candles set fast slow ≡ ran
          → (rest : Result (List (Entry n))) → rank n candles set grid ≡ rest
          → All (IsRun candles set) ranked
      split ih true e ran f rest g = ih ranked (ground arith)
      split ih false e (err x) f rest g = ground arith
      split ih false e (ok metrics) f (err x) g = ground arith
      split ih false e (ok metrics) f (ok later) g =
          let entry : Entry n = record {
            fast_window = fast;
            slow_window = slow;
            metrics = metrics;
          } in
          let made : ranked ≡ entry ∷ later = ground arith in
          let run : IsRun candles set entry = record {
            ordered = ground arith;
            fits = ground arith;
            ran = f;
          } in
          subst (All (IsRun candles set)) (sym made) (run, ih later g)

  eligible_of :
      (P : Entry n → Type 0) (ranked : List (Entry n))
      → All P ranked
      → All (λ r. (is_eligible n r ≡ true) × P r) (filterb (is_eligible n) ranked)
  eligible_of P [] h = tt
  eligible_of P (r ∷ rest) (h, hs) = split (eligible_of P rest hs) (is_eligible n r) refl
    where
      split :
          All (λ r. (is_eligible n r ≡ true) × P r) (filterb (is_eligible n) rest)
          → (b : Bool) → is_eligible n r ≡ b
          → All
              (λ r. (is_eligible n r ≡ true) × P r)
              (if b then r ∷ filterb (is_eligible n) rest else filterb (is_eligible n) rest)
      split ih true e = ((e, h), ih)
      split ih false e = ih

  best_of-holds :
      (P : Entry n → Type 0) (best : Entry n) (rest : List (Entry n))
      → P best
      → All P rest
      → P (best_of n best rest)
  best_of-holds P best [] h hs = h
  best_of-holds P best (r ∷ rest) h (k, ks) =
      split (best_of-holds P r rest k ks) (best_of-holds P best rest h ks)
        (below n best.metrics.sharpe r.metrics.sharpe)
    where
      split :
          P (best_of n r rest)
          → P (best_of n best rest)
          → (b : Bool) → P (best_of n (if b then r else best) rest)
      split new old true = new
      split new old false = old

  -- No Sharpe ratio is above the one of an entry.
  abbrev pub IsBest : Entry n → Entry n → Type 0
  IsBest best r = below n best.metrics.sharpe r.metrics.sharpe ≡ false

  module _ (order : IsOrder n) where
    below_irrefl : (x : Option n.F) → below n x x ≡ false
    below_irrefl none = refl
    below_irrefl (some x) = order.irreflexive x

    -- What is not below `x` and what is above `x` are in order.
    below_trans :
        (x y z : Option n.F) → below n x y ≡ true → below n x z ≡ false → below n y z ≡ false
    below_trans none none z h k = cc
    below_trans none (some y) none h k = refl
    below_trans none (some y) (some z) h k = cc
    below_trans (some x) none z h k = cc
    below_trans (some x) (some y) none h k = refl
    below_trans (some x) (some y) (some z) h k = ground (arith, order.transitive x y z h)

    best_of-IsBest :
        (best : Entry n) (rest : List (Entry n)) (x : Option n.F)
        → below n best.metrics.sharpe x ≡ false
        → (below n (best_of n best rest).metrics.sharpe x ≡ false)
          × All (IsBest (best_of n best rest)) rest
    best_of-IsBest best [] x h = (h, tt)
    best_of-IsBest best (r ∷ rest) x h =
        split (best_of-IsBest r rest) (best_of-IsBest best rest)
          (below n best.metrics.sharpe r.metrics.sharpe) refl
      where
        split :
            ((y : Option n.F)
              → below n r.metrics.sharpe y ≡ false
              → (below n (best_of n r rest).metrics.sharpe y ≡ false)
                × All (IsBest (best_of n r rest)) rest)
            → ((y : Option n.F)
                → below n best.metrics.sharpe y ≡ false
                → (below n (best_of n best rest).metrics.sharpe y ≡ false)
                  × All (IsBest (best_of n best rest)) rest)
            → (b : Bool) → below n best.metrics.sharpe r.metrics.sharpe ≡ b
            → (below n (best_of n (if b then r else best) rest).metrics.sharpe x ≡ false)
              × All (IsBest (best_of n (if b then r else best) rest)) (r ∷ rest)
        split new old true e =
            let above = below_trans best.metrics.sharpe r.metrics.sharpe x e h in
            ((new x above).0, new r.metrics.sharpe (below_irrefl r.metrics.sharpe))
        split new old false e = ((old x h).0, old r.metrics.sharpe e)

    choose-IsBest :
        (ranked eligible : List (Entry n)) (best : Entry n) (sorted : List (Entry n))
        (P : Entry n → Type 0)
        → choose n ranked eligible ≡ ok (best, sorted)
        → All P eligible
        → P best × All (IsBest best) eligible × (sorted ≡ sort_ranked n ranked)
    choose-IsBest ranked [] best sorted P h hs = cc
    choose-IsBest ranked (r ∷ rest) best sorted P h (k, ks) =
        let e : best_of n r rest ≡ best = cc in
        let s = r.metrics.sharpe in
        let (held, top) =
          subst (λ b. P b × All (IsBest b) (r ∷ rest)) e
            (best_of-holds P r rest k ks, best_of-IsBest r rest s (below_irrefl s)) in
        let order : sorted ≡ sort_ranked n ranked = cc in (held, top, order)

    -- What `run_sweep` has done where it returns: `r` holds the windows `best` of a run on the first
    -- part that is eligible, whose Sharpe ratio no eligible run there exceeds, and the run on the rest.
    abbrev pub IsChosen :
        List (Candle n.D) → Settings n → List (ℕ × ℕ) → n.F → SweepResult n → Type 0
    IsChosen candles set grid ratio r =
        let (first, rest) = split_chronological n candles ratio in
        let best : Entry n = record {
          fast_window = r.fast_window;
          slow_window = r.slow_window;
          metrics = r.in_sample;
        } in
        (first ++ rest ≡ candles)
        × IsRun first set best
        × (is_eligible n best ≡ true)
        × (run_backtest_metrics n rest set r.fast_window r.slow_window ≡ ok r.out_of_sample)
        × ((ranked : List (Entry n)) × (rank n first set grid ≡ ok ranked)
            × All (IsBest best) (filterb (is_eligible n) ranked)
            × (r.ranked_in_sample ≡ sort_ranked n ranked))

    -- If `run_sweep` returns, then the two parts of the candles make up the candles, and the chosen
    -- windows are those of a run on the first part whose fast window is shorter than its slow one, which
    -- fits the part; that run is eligible, no eligible run of the grid on the first part has a higher
    -- Sharpe ratio, and the out-of-sample metrics are those of these windows on the second part.
    -- The result also holds all runs of the grid on the first part, sorted by `sort_ranked`.
    pub run_sweep-IsChosen :
        (candles : List (Candle n.D)) (set : Settings n) (grid : List (ℕ × ℕ)) (ratio : n.F)
        (r : SweepResult n)
        → run_sweep n candles set grid ratio ≡ ok r
        → IsChosen candles set grid ratio r
    unfolding run_sweep
    run_sweep-IsChosen candles set grid ratio r h =
        let (first, rest) = split_chronological n candles ratio in
        let (ranked, e, h') = >>=-ok (rank n first set grid) _ r h in
        let (chosen, f, h'') = >>=-ok (choose n ranked (filterb (is_eligible n) ranked)) _ r h' in
        let (oos, g, made) =
          >>=-ok (run_backtest_metrics n rest set chosen.0.fast_window chosen.0.slow_window) _ r
            h'' in
        let Good : Entry n → Type 0 = λ b. (is_eligible n b ≡ true) × IsRun first set b in
        let good = eligible_of (IsRun first set) ranked (rank-IsRun first set grid ranked e) in
        let ((eligible, run), best, sorted) =
          choose-IsBest ranked _ chosen.0 chosen.1 Good f good in
        subst (IsChosen candles set grid ratio) (ok-inj made) (
          take-append-drop (n.scale ratio (length candles)) candles,
          run,
          eligible,
          g,
          (ranked, e, best, sorted),
        )
