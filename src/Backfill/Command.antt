-- ===== src/Backfill/Command.antt =====
-- src/crypto_pipeline/backfill/__main__.py, with `resolve_range` of common/parse.py: the command that
-- loads a range of candles for each of its symbols, `symbol.upper()` being a parameter.
pub mod Complete
use mathlib.Core.List.{append-nil, append_assoc}
use mathlib.Core.Path.{subst}
use crypto_market_data_pipel.Prelude.{
  ℕ, suc, ◌+◌, ◌-◌, ◌*◌, ◌≡◌, ◌≢◌, ◌≤◌, All, map, refl, sym, ap, ◌∙◌, Bool, true, false, Option,
  none, some, List, [], ◌∷◌, ◌++◌, leb, String, str_eq, length, length-append, arith, if◌then◌else◌,
}
use crypto_market_data_pipel.Common.Errors.{Result, ok, err, ◌>>=◌, value_error}
use crypto_market_data_pipel.Common.Candle.{Candle}
use crypto_market_data_pipel.Common.Json.{Codec}
use crypto_market_data_pipel.Backfill.Fetch.{Client, World, fetch_range}
use crypto_market_data_pipel.Writer.Table.{insert_candles}
use crypto_market_data_pipel.Writer.Table.Replay.{insert_candles_extends}
use crypto_market_data_pipel.Writer.Consumer.{Outcome, written, failed, lost}

-- A day, in microseconds.
abbrev pub day : ℕ
day = 86_400_000_000

pub record Args : Type 0 where
  pub symbol : List String
  pub days : ℕ
  pub start : Option String
  pub end : Option String
  pub dry_run : Bool

-- The symbols of a command in their order, each with what it meets.
unfoldable pub label : {A : Type 0} → (ℕ → A) → List String → List (String × A)
label meets [] = []
label meets (symbol ∷ rest) = (symbol, meets 0) ∷ label (λ k. meets (suc k)) rest

-- A text that is given and not empty.
abbrev pub given : Option String → Option String
given none = none
given (some s) = if str_eq s "" then none else some s

module _ (c : Codec) where
  abbrev pub end_of : ℕ → Option String → Result ℕ
  end_of now none = ok now
  end_of now (some s) = c.fromisoformat s

  -- (A start before 1970 is 1970 here.)
  abbrev pub start_of : ℕ → ℕ → Option String → Result ℕ
  start_of end days none = ok (end - days * day)
  start_of end days (some s) = c.fromisoformat s

  unfoldable pub resolve_range : ℕ → Args → Result (ℕ × ℕ)
  resolve_range now args = do
    end ← end_of now (given args.end)
    start ← start_of end args.days (given args.start)
    (if leb end start then err value_error else ok (start, end))

  -- The loop's variables, with the table and the exchange.
  pub record Progress (S : Type 0) : Type 0 where
    pub failures : List String
    pub total_fetched : ℕ
    pub total_inserted : ℕ
    pub table : List (Candle c.D)
    pub world : World S

  module _ {S : Type 0} (client : Client S) (fuel : ℕ) (dry_run : Bool) (start end : ℕ) where
    -- `insert_candles`, which may raise: before the commit, or with its answer lost after it.
    abbrev pub insert : String → Outcome → List (Candle c.D) → Progress S → Progress S
    insert symbol written candles p =
        let (table, inserted) = insert_candles p.table candles in
        record p { table = table; total_inserted = p.total_inserted + inserted }
    insert symbol failed candles p = record p { failures = p.failures ++ (symbol ∷ []) }
    insert symbol lost candles p = record p {
      table = (insert_candles p.table candles).0;
      failures = p.failures ++ (symbol ∷ []);
    }

    abbrev pub fetched :
        String
        → Outcome
        → Progress S
        → Option (World S × Result (List (Candle c.D)))
        → Option (Progress S)
    fetched symbol outcome p none = none
    fetched symbol outcome p (some (w, err e)) =
        some (record p { world = w; failures = p.failures ++ (symbol ∷ []) })
    fetched symbol outcome p (some (w, ok candles)) =
        let p' = record p { world = w; total_fetched = p.total_fetched + length candles } in
        some (if dry_run then p' else insert symbol outcome candles p')

    -- `for symbol in …`, with what the write of each meets.
    unfoldable pub backfill_all : List (String × Outcome) → Progress S → Option (Progress S)
    backfill_all [] p = some p
    backfill_all ((symbol, outcome) ∷ rest) p =
        elim (fetched symbol outcome p (fetch_range c fuel client symbol start end p.world)) [
          | none ↦ none
          | some p' ↦ backfill_all rest p'
        ]

  -- `return 1 if failures else 0`
  abbrev pub exit_code : List String → ℕ
  exit_code [] = 0
  exit_code (s ∷ ss) = 1

  -- The variables before the loop.
  abbrev pub begun : {S : Type 0} → List (Candle c.D) → World S → Progress S
  begun table w = record {
    failures = [];
    total_fetched = 0;
    total_inserted = 0;
    table = table;
    world = w;
  }

  abbrev pub ended : {S : Type 0} → Option (Progress S) → Option (Result (ℕ × Progress S))
  ended none = none
  ended (some p) = some (ok (exit_code p.failures, p))

  module _ {S : Type 0} (client : Client S) (upper : String → String) (fuel : ℕ) where
    abbrev pub for_range :
        Bool
        → List (String × Outcome)
        → Progress S
        → Result (ℕ × ℕ)
        → Option (Result (ℕ × Progress S))
    for_range dry_run symbols p (ok (start, end)) =
        ended (backfill_all client fuel dry_run start end symbols p)
    for_range dry_run symbols p (err value_error) = some (ok (2, p))
    for_range dry_run symbols p (err e) = some (err e)

    -- The exit code with what the loop leaves, for what the write of each symbol meets. Other exceptions of `resolve_range` go up; `none` is a fetch that does not end.
    unfoldable pub main :
        ℕ → Args → (ℕ → Outcome) → List (Candle c.D) → World S → Option (Result (ℕ × Progress S))
    main now args outcomes table w =
        for_range args.dry_run (label outcomes (map upper args.symbol)) (begun table w)
          (resolve_range now args)

  -- The range that `resolve_range` returns is not empty.
  pub resolve_range-lt :
      (now : ℕ) (args : Args) (start end : ℕ)
      → resolve_range now args ≡ ok (start, end)
      → suc start ≤ end
  unfolding resolve_range
  resolve_range-lt now args start end h = ground arith

  module _ {S : Type 0} (client : Client S) (fuel : ℕ) (dry_run : Bool) (start end : ℕ) where
    -- What a part of the loop has added: no fewer rows than were counted, and as many if nothing was
    -- lost.
    abbrev pub Grows : Type 0 → Progress S → Progress S → Type 0
    Grows Kept p q =
        (added : List (Candle c.D)) × (q.table ≡ p.table ++ added)
        × (q.total_inserted ≤ p.total_inserted + length added)
        × (Kept → q.total_inserted ≡ p.total_inserted + length added)
        × (length added + p.total_fetched ≤ q.total_fetched)

    Grows-refl : (K : Type 0) (p : Progress S) → Grows K p p
    Grows-refl K p = ([], sym (append-nil p.table), omega arith, (λ k. omega arith), omega arith)

    Grows-trans :
        (K L : Type 0) (p q r : Progress S) → Grows K p q → Grows L q r → Grows (K × L) p r
    Grows-trans K L p q r (new, e, i, eq, l) (new', e', i', eq', l') =
        let both = e' ∙ ap (λ t. t ++ new') e ∙ append_assoc p.table new new' in
        let more = length-append new new' in
        (
          new ++ new',
          both,
          omega (arith, more),
          (λ k. omega (arith, more, eq k.0, eq' k.1)),
          omega (arith, more),
        )

    insert-Grows :
        (symbol : String) (outcome : Outcome) (candles : List (Candle c.D)) (p : Progress S)
        (w : World S)
        → Grows (outcome ≢ lost) p (
            insert client fuel dry_run start end symbol outcome candles
              (record p { world = w; total_fetched = p.total_fetched + length candles }))
    insert-Grows symbol written candles p w =
        let (new, e, k, le) = insert_candles_extends p.table candles in
        (new, e, omega arith, (λ kept. omega arith), omega arith)
    insert-Grows symbol failed candles p w =
        ([], sym (append-nil p.table), omega arith, (λ kept. omega arith), omega arith)
    insert-Grows symbol lost candles p w =
        let (new, e, k, le) = insert_candles_extends p.table candles in
        (new, e, omega arith, (λ kept. absurd (kept refl)), omega arith)

    fetched-Grows :
        (symbol : String) (outcome : Outcome) (p q : Progress S)
        (r : Option (World S × Result (List (Candle c.D))))
        → fetched client fuel dry_run start end symbol outcome p r ≡ some q
        → Grows (outcome ≢ lost) p q
    fetched-Grows symbol outcome p q none h = cc
    fetched-Grows symbol outcome p q (some (w, err e)) h =
        let p' : Progress S = record p { world = w; failures = p.failures ++ (symbol ∷ []) } in
        let made : p' ≡ q = cc in
        subst (Grows (outcome ≢ lost) p) made
          ([], sym (append-nil p.table), omega arith, (λ kept. omega arith), omega arith)
    fetched-Grows symbol outcome p q (some (w, ok candles)) h = split dry_run refl
      where
        split : (dry : Bool) → dry_run ≡ dry → Grows (outcome ≢ lost) p q
        split true e =
            let p' : Progress S = record p {
              world = w;
              total_fetched = p.total_fetched + length candles;
            } in
            let made : p' ≡ q = cc in
            subst (Grows (outcome ≢ lost) p) made
              ([], sym (append-nil p.table), omega arith, (λ kept. omega arith), omega arith)
        split false e =
            let p' : Progress S = record p {
              world = w;
              total_fetched = p.total_fetched + length candles;
            } in
            let made : insert client fuel dry_run start end symbol outcome candles p' ≡ q = cc in
            subst (Grows (outcome ≢ lost) p) made (insert-Grows symbol outcome candles p w)

    -- However the fetches and the writes of the command's loop end, writes with a lost answer included:
    -- where the loop comes to its end, the table has only grown, by no fewer rows than were added to
    -- `total_inserted`, by exactly as many if the answer of no write was lost, and by at most as many as
    -- were added to `total_fetched`.
    pub backfill_all-Grows :
        (symbols : List (String × Outcome)) (p q : Progress S)
        → backfill_all client fuel dry_run start end symbols p ≡ some q
        → Grows (All (λ x. x.1 ≢ lost) symbols) p q
    unfolding backfill_all
    backfill_all-Grows [] p q h =
        let made : p ≡ q = cc in subst (Grows Unit p) made (Grows-refl Unit p)
    backfill_all-Grows ((symbol, outcome) ∷ rest) p q h =
        split (backfill_all-Grows rest)
          (fetched client fuel dry_run start end symbol outcome p
            (fetch_range c fuel client symbol start end p.world))
          refl
      where
        split :
            ((p q : Progress S)
              → backfill_all client fuel dry_run start end rest p ≡ some q
              → Grows (All (λ x. x.1 ≢ lost) rest) p q)
            → (after : Option (Progress S))
            → fetched client fuel dry_run start end symbol outcome p
                (fetch_range c fuel client symbol start end p.world)
              ≡ after
            → Grows (All (λ x. x.1 ≢ lost) ((symbol, outcome) ∷ rest)) p q
        split ih none e = ground arith
        split ih (some p') e =
            let h' : backfill_all client fuel dry_run start end rest p' ≡ some q = ground arith in
            Grows-trans (outcome ≢ lost) (All (λ x. x.1 ≢ lost) rest) p p' q
              (fetched-Grows symbol outcome p p' _ e) (ih p' q h')
