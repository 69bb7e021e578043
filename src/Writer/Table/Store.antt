-- ===== src/Writer/Table/Store.antt =====
-- The table as its readers see it: the rows by their keys, whatever their order. A quotient of the
-- tables that hold each key once, with what src/crypto_pipeline/writer/db.py and common/db.py do to it.
use mathlib.Core.Quot
use mathlib.Core.Quot.{Quot, Quot-set}
use crypto_market_data_pipel.Prelude.{
  ℕ, ◌≡◌, refl, sym, ap, ◌∙◌, Option, none, some, List, ◌++◌, String, String-IsSet, leb, ltb, ◌&&◌,
}
use crypto_market_data_pipel.Common.Candle.{Candle}
use crypto_market_data_pipel.Writer.Table.{insert_candles, order_by_ts, read_candles}
use crypto_market_data_pipel.Writer.Table.Keys.{
  IsKeyed, row_of, or_else, or_else_assoc, row_of-append, row_of-insert_candles,
  IsKeyed-insert_candles,
}
use crypto_market_data_pipel.Writer.Table.Views.{windowed, order_by_ts-filterb}

module _ (D : Type 0) where
  abbrev pub KeyedTable : Type 0
  KeyedTable = (rows : List (Candle D)) × IsKeyed rows

  -- The same row, or none, at each key.
  abbrev pub SameRows : KeyedTable → KeyedTable → Type 0
  SameRows s t = (k : Candle D) → row_of k s.0 ≡ row_of k t.0

  abbrev pub Store : Type 0
  Store = Quot SameRows

  abbrev pub inserted : List (Candle D) → KeyedTable → KeyedTable
  inserted candles t = ((insert_candles t.0 candles).0, IsKeyed-insert_candles t.0 candles t.1)

  pub SameRows-inserted :
      (candles : List (Candle D)) (s t : KeyedTable)
      → SameRows s t
      → SameRows (inserted candles s) (inserted candles t)
  SameRows-inserted candles s t same k =
      row_of-insert_candles k s.0 candles
      ∙ ap (λ o. or_else o (row_of k candles)) (same k)
      ∙ sym (row_of-insert_candles k t.0 candles)

  -- `insert_candles`
  unfoldable pub put : List (Candle D) → Store → Store
  put candles =
      Quot.lift Quot-set (λ t. Quot.mk (inserted candles t))
        (λ s t same. Quot.sound (SameRows-inserted candles s t same))

  or_else_idem : (o : Option (Candle D)) → or_else o o ≡ o
  or_else_idem none = refl
  or_else_idem (some c) = refl

  module _ (D_set : IsSet D) where
    pub row_set : IsSet (Option (Candle D))
    row_set = hlevel (D_set, String-IsSet)

    pub rows_set : IsSet (List (Candle D))
    rows_set = hlevel (D_set, String-IsSet)

    -- The row at a key.
    unfoldable pub lookup : Candle D → Store → Option (Candle D)
    lookup k = Quot.lift row_set (λ t. row_of k t.0) (λ s t same. same k)

    pub read_candles-SameRows :
        (symbol : String) (start end : ℕ) (s t : KeyedTable)
        → SameRows s t
        → read_candles s.0 symbol start end ≡ read_candles t.0 symbol start end
    unfolding read_candles
    read_candles-SameRows symbol start end s t same =
        ap order_by_ts (windowed symbol (leb start) (λ u. ltb u end) s.0)
        ∙ order_by_ts-filterb symbol (λ u. leb start u && ltb u end) s.0 t.0 s.1 t.1 same
        ∙ sym (ap order_by_ts (windowed symbol (leb start) (λ u. ltb u end) t.0))

    -- `read_candles`
    unfoldable pub select : String → ℕ → ℕ → Store → List (Candle D)
    select symbol start end =
        Quot.lift rows_set (λ t. read_candles t.0 symbol start end)
          (read_candles-SameRows symbol start end)

    lookup-put :
        (k : Candle D) (candles : List (Candle D)) (store : Store)
        → lookup k (put candles store) ≡ or_else (lookup k store) (row_of k candles)
    unfolding lookup put
    lookup-put k candles =
        Quot.ind (λ store. row_set _ _) (λ t. row_of-insert_candles k t.0 candles)

    Store-ext : (s t : Store) → ((k : Candle D) → lookup k s ≡ lookup k t) → s ≡ t
    unfolding lookup
    Store-ext =
        Quot.ind (λ s. hlevel Quot-set)
          (λ s. Quot.ind (λ t. hlevel Quot-set) (λ t same. Quot.sound same))

    -- The table is a map that a writer adds to. For prices that form a set: on the tables seen by their
    -- rows, `insert_candles` and `read_candles` are functions; after `insert_candles` a key has the row
    -- that it had, or else the first candle of the batch with it; writing a batch again changes nothing,
    -- and two batches are written as one.
    pub Store-laws :
        (t : KeyedTable) (store : Store) (k : Candle D) (xs ys : List (Candle D)) (symbol : String)
        (start end : ℕ)
        → (put xs (Quot.mk t) ≡ Quot.mk (inserted xs t))
          × (select symbol start end (Quot.mk t) ≡ read_candles t.0 symbol start end)
          × (lookup k (put xs store) ≡ or_else (lookup k store) (row_of k xs))
          × (put xs (put xs store) ≡ put xs store)
          × (put ys (put xs store) ≡ put (xs ++ ys) store)
    unfolding put select
    Store-laws t store k xs ys symbol start end = (
      refl,
      refl,
      lookup-put k xs store,
      Store-ext _ _ (λ j.
          lookup_twice j xs xs
          ∙ ap (or_else (lookup j store)) (or_else_idem (row_of j xs))
          ∙ sym (lookup-put j xs store)),
      Store-ext _ _ (λ j.
          lookup_twice j xs ys
          ∙ ap (or_else (lookup j store)) (sym (row_of-append j xs ys))
          ∙ sym (lookup-put j (xs ++ ys) store)),
    )
      where
        lookup_twice :
            (j : Candle D) (ds es : List (Candle D))
            → lookup j (put es (put ds store))
              ≡ or_else (lookup j store) (or_else (row_of j ds) (row_of j es))
        lookup_twice j ds es =
            lookup-put j es (put ds store)
            ∙ ap (λ o. or_else o (row_of j es)) (lookup-put j ds store)
            ∙ or_else_assoc (lookup j store) (row_of j ds) (row_of j es)
