-- ===== src/Writer/Table/Keys.antt =====
-- `insert_candles` adds the missing keys, once each, and leaves what is stored alone.
use mathlib.Core.List.{append-nil, append_assoc}
use crypto_market_data_pipel.Prelude.{
  ◌≡◌, refl, sym, ap, ◌∙◌, true, false, ◌||◌, Option, none, some, List, [], ◌∷◌, ◌++◌, eq_iff,
  if◌then◌else◌, arith, Bool-cases, inl, inr,
}
use crypto_market_data_pipel.Common.Candle.{Candle}
use crypto_market_data_pipel.Writer.Table.{
  same_key, has_key, insert_select, copy_rows, insert_candles,
}

-- The first of two, if there is one.
abbrev pub or_else {ℓ} : {A : Type ℓ} → Option A → Option A → Option A
or_else none o = o
or_else (some a) o = some a

or_else-none {ℓ} : {A : Type ℓ} (o : Option A) → or_else o none ≡ o
or_else-none none = refl
or_else-none (some a) = refl

or_else_known {ℓ} :
    {A : Type ℓ} (o : Option A) (a : A) (p q : Option A) → o ≡ some a → or_else o p ≡ or_else o q
or_else_known none a p q h = cc
or_else_known (some b) a p q h = refl

pub or_else_assoc {ℓ} :
    {A : Type ℓ} (o p q : Option A) → or_else (or_else o p) q ≡ or_else o (or_else p q)
or_else_assoc none p q = refl
or_else_assoc (some a) p q = refl

module _ {D : Type 0} where
  -- No two rows of the table have one key.
  abbrev pub IsKeyed : List (Candle D) → Type 0
  IsKeyed [] = Unit
  IsKeyed (row ∷ rows) = (has_key row rows ≡ false) × IsKeyed rows

  -- The first row that has the key of a candle.
  abbrev pub row_of : Candle D → List (Candle D) → Option (Candle D)
  row_of k [] = none
  row_of k (row ∷ rows) = if same_key row k then some row else row_of k rows

  pub copy_rows-append :
      (stage candles : List (Candle D)) → copy_rows stage candles ≡ stage ++ candles
  unfolding copy_rows
  copy_rows-append stage [] = sym (append-nil stage)
  copy_rows-append stage (c ∷ cs) =
      copy_rows-append (stage ++ (c ∷ [])) cs ∙ append_assoc stage (c ∷ []) cs

  same_key_trans : (a b k : Candle D) → same_key a b ≡ true → same_key a k ≡ same_key b k
  same_key_trans a b k h =
      ground (arith, eq_iff a.symbol b.symbol, eq_iff a.symbol k.symbol, eq_iff b.symbol k.symbol)

  pub row_of-append :
      (k : Candle D) (xs ys : List (Candle D))
      → row_of k (xs ++ ys) ≡ or_else (row_of k xs) (row_of k ys)
  row_of-append k [] ys = refl
  row_of-append k (x ∷ xs) ys = ground (arith, row_of-append k xs ys)

  row_of-has_key :
      (k : Candle D) (rows : List (Candle D))
      → has_key k rows ≡ true
      → (row : Candle D) × (row_of k rows ≡ some row)
  row_of-has_key k [] h = cc
  row_of-has_key k (row ∷ rows) h = elim (Bool-cases (same_key row k)) [
    | inl e ↦ (row, rw e)
    | inr e ↦ let (found, p) = row_of-has_key k rows (rw e at h) in (found, rw e p)
  ]

  pub row_of-not_has_key :
      (k : Candle D) (rows : List (Candle D)) → has_key k rows ≡ false → row_of k rows ≡ none
  row_of-not_has_key k [] h = refl
  row_of-not_has_key k (row ∷ rows) h = ground (arith, row_of-not_has_key k rows)

  has_key-same_key :
      (a k : Candle D) (rows : List (Candle D))
      → same_key a k ≡ true
      → has_key a rows ≡ has_key k rows
  has_key-same_key a k [] h = refl
  has_key-same_key a k (row ∷ rows) h = ground (
    arith,
    eq_iff a.symbol k.symbol,
    eq_iff row.symbol a.symbol,
    eq_iff row.symbol k.symbol,
    has_key-same_key a k rows h,
  )

  -- First writer wins: the table after a write has, at each key, the row that it had, or else the
  -- first staged row with that key.
  row_of-insert_select :
      (k : Candle D) (table stage : List (Candle D))
      → row_of k (insert_select table stage) ≡ or_else (row_of k table) (row_of k stage)
  unfolding insert_select
  row_of-insert_select k table [] = sym (or_else-none (row_of k table))
  row_of-insert_select k table (row ∷ stage) = elim (Bool-cases (has_key row table)) [
    | inl e ↦ rw e (row_of-insert_select k table stage ∙ known e)
    | inr e ↦ rw e (
        row_of-insert_select k (table ++ (row ∷ [])) stage
        ∙ ap (λ (o : Option (Candle D)). or_else o (row_of k stage))
            (row_of-append k table (row ∷ []))
        ∙ or_else_assoc (row_of k table) (row_of k (row ∷ [])) (row_of k stage)
        ∙ ap (λ (o : Option (Candle D)). or_else (row_of k table) o) single)
  ]
    where
      known :
          has_key row table ≡ true
          → or_else (row_of k table) (row_of k stage)
            ≡ or_else (row_of k table) (row_of k (row ∷ stage))
      known e = elim (Bool-cases (same_key row k)) [
        | inl same ↦
            let (found, p) = row_of-has_key k table (sym (has_key-same_key row k table same) ∙ e) in
            or_else_known (row_of k table) found _ _ p
        | inr other ↦ rw other
      ]

      single : or_else (row_of k (row ∷ [])) (row_of k stage) ≡ row_of k (row ∷ stage)
      single = ground arith

  -- What `insert_candles` does to the table.
  pub insert_candles-insert_select :
      (table candles : List (Candle D))
      → (insert_candles table candles).0 ≡ insert_select table candles
  unfolding insert_candles
  insert_candles-insert_select table candles =
      ap (insert_select table) (copy_rows-append [] candles)

  -- First writer wins: after a write the table holds, at each key, the row that it held, or else the
  -- first candle of the batch with that key.
  pub row_of-insert_candles :
      (k : Candle D) (table candles : List (Candle D))
      → row_of k (insert_candles table candles).0 ≡ or_else (row_of k table) (row_of k candles)
  row_of-insert_candles k table candles =
      ap (row_of k) (insert_candles-insert_select table candles)
      ∙ row_of-insert_select k table candles

  pub has_key-append :
      (k : Candle D) (xs ys : List (Candle D))
      → has_key k (xs ++ ys) ≡ (has_key k xs || has_key k ys)
  has_key-append k [] ys = refl
  has_key-append k (x ∷ xs) ys = ground (arith, has_key-append k xs ys)

  IsKeyed-append :
      (rows : List (Candle D)) (row : Candle D)
      → IsKeyed rows
      → has_key row rows ≡ false
      → IsKeyed (rows ++ (row ∷ []))
  IsKeyed-append [] row h new = (refl, tt)
  IsKeyed-append (r ∷ rows) row h new = (
    ground (
      arith,
      has_key-append r rows (row ∷ []),
      eq_iff r.symbol row.symbol,
      eq_iff row.symbol r.symbol,
      h.0,
    ),
    IsKeyed-append rows row h.1 (ground arith),
  )

  IsKeyed-insert_select :
      (table stage : List (Candle D)) → IsKeyed table → IsKeyed (insert_select table stage)
  unfolding insert_select
  IsKeyed-insert_select table [] h = h
  IsKeyed-insert_select table (row ∷ stage) h = elim (Bool-cases (has_key row table)) [
    | inl e ↦ rw e (IsKeyed-insert_select table stage h)
    | inr e ↦
        rw e (IsKeyed-insert_select (table ++ (row ∷ [])) stage (IsKeyed-append table row h e))
  ]

  -- The primary key holds after every write.
  pub IsKeyed-insert_candles :
      (table candles : List (Candle D)) → IsKeyed table → IsKeyed (insert_candles table candles).0
  IsKeyed-insert_candles table candles h =
      rw insert_candles-insert_select (IsKeyed-insert_select table candles h)

  insert_select-append :
      (table xs ys : List (Candle D))
      → insert_select table (xs ++ ys) ≡ insert_select (insert_select table xs) ys
  unfolding insert_select
  insert_select-append table [] ys = refl
  insert_select-append table (x ∷ xs) ys =
      insert_select-append (if has_key x table then table else table ++ (x ∷ [])) xs ys

  -- How the candles are cut into batches does not matter.
  insert_candles-append :
      (table xs ys : List (Candle D))
      → (insert_candles table (xs ++ ys)).0 ≡ (insert_candles (insert_candles table xs).0 ys).0
  insert_candles-append table xs ys =
      insert_candles-insert_select table (xs ++ ys)
      ∙ insert_select-append table xs ys
      ∙ sym (insert_candles-insert_select (insert_select table xs) ys)
      ∙ ap (λ (t : List (Candle D)). (insert_candles t ys).0)
          (sym (insert_candles-insert_select table xs))
