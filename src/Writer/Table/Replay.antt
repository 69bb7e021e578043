-- ===== src/Writer/Table/Replay.antt =====
-- What `insert_candles` counts, and what a second write of the same candles does.
use mathlib.Core.Path.{subst}
use mathlib.Core.List.{append-nil, append_assoc}
use crypto_market_data_pipel.Prelude.{
  ◌-◌, ◌≤◌, ◌≡◌, refl, sym, ap, ◌∙◌, true, false, List, [], ◌∷◌, ◌++◌, eq_iff, length,
  length-append, arith, Bool-cases, inl, inr, All,
}
use crypto_market_data_pipel.Common.Candle.{Candle}
use crypto_market_data_pipel.Writer.Table.{has_key, insert_select, insert_candles}
use crypto_market_data_pipel.Writer.Table.Keys.{
  insert_candles-insert_select, has_key-append, copy_rows-append,
}

module _ {D : Type 0} where
  -- Every candle of a batch has its key in the table.
  abbrev pub AllStored : List (Candle D) → List (Candle D) → Type 0
  AllStored table = All (λ c. has_key c table ≡ true)

  insert_select_known :
      (table stage : List (Candle D)) → AllStored table stage → insert_select table stage ≡ table
  unfolding insert_select
  insert_select_known table [] h = refl
  insert_select_known table (row ∷ stage) h = rw h.0 (insert_select_known table stage h.1)

  has_key_self :
      (row : Candle D) (table : List (Candle D)) → has_key row (table ++ (row ∷ [])) ≡ true
  has_key_self row table =
      ground (arith, has_key-append row table (row ∷ []), eq_iff row.symbol row.symbol)

  pub has_key-insert_select :
      (k : Candle D) (table stage : List (Candle D))
      → has_key k table ≡ true
      → has_key k (insert_select table stage) ≡ true
  unfolding insert_select
  has_key-insert_select k table [] h = h
  has_key-insert_select k table (row ∷ stage) h = elim (Bool-cases (has_key row table)) [
    | inl e ↦ rw e (has_key-insert_select k table stage h)
    | inr e ↦ rw e (
        has_key-insert_select k (table ++ (row ∷ [])) stage
          (ground (arith, has_key-append k table (row ∷ []))))
  ]

  insert_select_old :
      (row : Candle D) (table stage : List (Candle D))
      → has_key row table ≡ true
      → insert_select table (row ∷ stage) ≡ insert_select table stage
  unfolding insert_select
  insert_select_old row table stage e = rw e

  insert_select_new :
      (row : Candle D) (table stage : List (Candle D))
      → has_key row table ≡ false
      → insert_select table (row ∷ stage) ≡ insert_select (table ++ (row ∷ [])) stage
  unfolding insert_select
  insert_select_new row table stage e = rw e

  AllStored-insert_select :
      (table stage : List (Candle D)) → AllStored (insert_select table stage) stage
  AllStored-insert_select table [] = tt
  AllStored-insert_select table (row ∷ stage) = elim (Bool-cases (has_key row table)) [
    | inl e ↦
        subst (λ t. AllStored t (row ∷ stage)) (sym (insert_select_old row table stage e))
          (has_key-insert_select row table stage e, AllStored-insert_select table stage)
    | inr e ↦
        subst (λ t. AllStored t (row ∷ stage)) (sym (insert_select_new row table stage e))
          (
            has_key-insert_select row (table ++ (row ∷ [])) stage (has_key_self row table),
            AllStored-insert_select (table ++ (row ∷ [])) stage,
          )
  ]

  -- After a write every candle of the batch has its key in the table, and no key is lost.
  pub AllStored-insert_candles :
      (table candles : List (Candle D)) → AllStored (insert_candles table candles).0 candles
  AllStored-insert_candles table candles =
      rw insert_candles-insert_select (AllStored-insert_select table candles)

  pub has_key-insert_candles :
      (k : Candle D) (table candles : List (Candle D))
      → has_key k table ≡ true
      → has_key k (insert_candles table candles).0 ≡ true
  has_key-insert_candles k table candles h =
      rw insert_candles-insert_select (has_key-insert_select k table candles h)

  -- Replaying a batch, at once or after other writes, inserts nothing: a batch whose keys are all
  -- stored leaves the table as it is, and counts 0.
  insert_candles_known :
      (table candles : List (Candle D))
      → AllStored table candles
      → insert_candles table candles ≡ (table, 0)
  unfolding insert_candles
  insert_candles_known table candles h =
      rw copy_rows-append (rw (insert_select_known table candles h) (λ i. (table, same i)))
    where
      same : length table - length table ≡ 0
      same = omega arith

  -- Replaying a batch right after it was written, whatever the table held, changes nothing.
  pub insert_candles_replay :
      (table candles : List (Candle D))
      → let table' = (insert_candles table candles).0 in insert_candles table' candles ≡ (table', 0)
  insert_candles_replay table candles =
      insert_candles_known _ candles (AllStored-insert_candles table candles)

  insert_select_extends :
      (table stage : List (Candle D))
      → (new : List (Candle D)) × (insert_select table stage ≡ table ++ new)
        × (length new ≤ length stage)
  unfolding insert_select
  insert_select_extends table [] = ([], sym (append-nil table), omega arith)
  insert_select_extends table (row ∷ stage) = elim (Bool-cases (has_key row table)) [
    | inl e ↦ let (new, p, le) = insert_select_extends table stage in (new, rw e p, omega arith)
    | inr e ↦
        let (new, p, le) = insert_select_extends (table ++ (row ∷ [])) stage in
        (row ∷ new, rw e (p ∙ append_assoc table (row ∷ []) new), omega arith)
  ]

  -- A write only appends rows; it reports their number, which is at most the size of the batch.
  pub insert_candles_extends :
      (table candles : List (Candle D))
      → (new : List (Candle D)) × ((insert_candles table candles).0 ≡ table ++ new)
        × ((insert_candles table candles).1 ≡ length new)
        × (length new ≤ length candles)
  unfolding insert_candles
  insert_candles_extends table candles =
      let (new, p, le) = insert_select_extends table candles in
      let e = ap (insert_select table) (copy_rows-append [] candles) ∙ p in
      let n = ap (λ (t : List (Candle D)). length t) e in
      (new, e, omega (arith, n, length-append table new), le)
