-- ===== src/Backtest/Sweep/Causal.antt =====
-- `run_sweep` makes its choice before it looks at the test data.
use mathlib.Core.Path.{subst}
use crypto_market_data_pipel.Prelude.{ℕ, ◌≡◌, refl, sym, ap, ◌∙◌, List, filterb}
use crypto_market_data_pipel.Common.Errors.{ok, >>=-ok, ok-inj}
use crypto_market_data_pipel.Common.Candle.{Candle}
use crypto_market_data_pipel.Backtest.Numbers.{Numbers}
use crypto_market_data_pipel.Backtest.Runner.{Settings, run_backtest_metrics}
use crypto_market_data_pipel.Backtest.Sweep.{
  Entry, SweepResult, split_chronological, rank, is_eligible, choose, run_sweep,
}

module _ (n : Numbers) where
  -- What a sweep decides on the first part of the candles.
  record Decided (candles : List (Candle n.D)) (set : Settings n) (grid : List (ℕ × ℕ))
      (ratio : n.F) (r : SweepResult n) : Type 0 where
    ranked : List (Entry n)
    best : Entry n
    ran : rank n (split_chronological n candles ratio).0 set grid ≡ ok ranked
    chosen : choose n ranked (filterb (is_eligible n) ranked) ≡ ok (best, r.ranked_in_sample)
    fast : r.fast_window ≡ best.fast_window
    slow : r.slow_window ≡ best.slow_window
    in_sample : r.in_sample ≡ best.metrics

  run_sweep-Decided :
      (candles : List (Candle n.D)) (set : Settings n) (grid : List (ℕ × ℕ)) (ratio : n.F)
      (r : SweepResult n)
      → run_sweep n candles set grid ratio ≡ ok r
      → Decided candles set grid ratio r
  unfolding run_sweep
  run_sweep-Decided candles set grid ratio r h =
      let (first, rest) = split_chronological n candles ratio in
      let (ranked, e, h') = >>=-ok (rank n first set grid) _ r h in
      let (chosen, f, h'') = >>=-ok (choose n ranked (filterb (is_eligible n) ranked)) _ r h' in
      let (oos, g, made) =
        >>=-ok (run_backtest_metrics n rest set chosen.0.fast_window chosen.0.slow_window) _ r
          h'' in
      subst (Decided candles set grid ratio) (ok-inj made) (record {
        ranked = ranked;
        best = chosen.0;
        ran = e;
        chosen = f;
        fast = refl;
        slow = refl;
        in_sample = refl;
      })

  -- The sweep does not choose with the test data. If `run_sweep` returns for two lists of candles whose
  -- first parts, as `split_chronological` cuts them, are the same, then it returns the same windows, the
  -- same in-sample metrics and the same ranked runs for both, whatever the rest of the candles are.
  pub run_sweep_causal :
      (xs ys : List (Candle n.D)) (set : Settings n) (grid : List (ℕ × ℕ)) (ratio : n.F)
      (r s : SweepResult n)
      → (split_chronological n xs ratio).0 ≡ (split_chronological n ys ratio).0
      → run_sweep n xs set grid ratio ≡ ok r
      → run_sweep n ys set grid ratio ≡ ok s
      → (r.fast_window ≡ s.fast_window)
        × (r.slow_window ≡ s.slow_window)
        × (r.in_sample ≡ s.in_sample)
        × (r.ranked_in_sample ≡ s.ranked_in_sample)
  run_sweep_causal xs ys set grid ratio r s same p q =
      let d = run_sweep-Decided xs set grid ratio r p in
      let e = run_sweep-Decided ys set grid ratio s q in
      let ranked : d.ranked ≡ e.ranked =
        ok-inj (sym d.ran ∙ ap (λ l. rank n l set grid) same ∙ e.ran) in
      let chosen =
        ok-inj
          (sym d.chosen ∙ ap (λ l. choose n l (filterb (is_eligible n) l)) ranked ∙ e.chosen) in
      let best = ap (λ c. c.0) chosen in
      (
        d.fast ∙ ap (λ b. b.fast_window) best ∙ sym e.fast,
        d.slow ∙ ap (λ b. b.slow_window) best ∙ sym e.slow,
        d.in_sample ∙ ap (λ b. b.metrics) best ∙ sym e.in_sample,
        ap (λ c. c.1) chosen,
      )
