-- ===== src/Writer/Table/Views.antt =====
-- What a query sees of the table is the rows by their keys, and not their order.
use crypto_market_data_pipel.Prelude.{
  ℕ, suc, ◌≡◌, ◌≤◌, ◌<◌, refl, sym, ap, ◌∙◌, Bool, true, false, ◌&&◌, Option, none, some, List, [],
  ◌∷◌, ◌==◌, leb, str_eq, String, filterb, eq_iff, arith, if◌then◌else◌,
}
use crypto_market_data_pipel.Common.Candle.{Candle}
use crypto_market_data_pipel.Writer.Table.{insert_candles, insert_sorted, order_by_ts}
use crypto_market_data_pipel.Writer.Table.Keys.{
  IsKeyed, row_of, row_of-not_has_key, row_of-insert_candles, IsKeyed-insert_candles, or_else,
  or_else_assoc,
}

and_assoc : (a b c : Bool) → (a && b && c) ≡ (a && (b && c))
and_assoc true b c = refl
and_assoc false b c = refl

module _ {D : Type 0} where
  -- The first row at a time.
  abbrev at : ℕ → List (Candle D) → Option (Candle D)
  at u [] = none
  at u (c ∷ cs) = if c.ts == u then some c else at u cs

  -- Times that ascend strictly, from a bound.
  abbrev IsStrict : ℕ → List (Candle D) → Type 0
  IsStrict t [] = Unit
  IsStrict t (c ∷ cs) = (t ≤ c.ts) × IsStrict (suc c.ts) cs

  at-below : (t u : ℕ) (cs : List (Candle D)) → u < t → IsStrict t cs → at u cs ≡ none
  at-below t u [] h s = refl
  at-below t u (c ∷ cs) h (k, s) =
      let later = at-below (suc c.ts) u cs (omega arith) s in ground arith

  same_head :
      (x y : Candle D) (xs ys : List (Candle D))
      → IsStrict (suc x.ts) xs
      → IsStrict (suc y.ts) ys
      → at x.ts (x ∷ xs) ≡ at x.ts (y ∷ ys)
      → at y.ts (x ∷ xs) ≡ at y.ts (y ∷ ys)
      → x ≡ y
  same_head x y xs ys sx sy p q =
      ground (arith, at-below (suc y.ts) x.ts ys, at-below (suc x.ts) y.ts xs)

  same_tail :
      (x y : Candle D) (xs ys : List (Candle D))
      → IsStrict (suc x.ts) xs
      → IsStrict (suc y.ts) ys
      → x.ts ≡ y.ts
      → (k : Candle D) → at k.ts (x ∷ xs) ≡ at k.ts (y ∷ ys)
      → at k.ts xs ≡ at k.ts ys
  same_tail x y xs ys sx sy e k p =
      ground (arith, at-below (suc y.ts) k.ts ys, at-below (suc x.ts) k.ts xs)

  -- Strictly ascending rows are known by what stands at each time.
  same_rows :
      (t : ℕ) (xs ys : List (Candle D))
      → IsStrict t xs
      → IsStrict t ys
      → ((k : Candle D) → at k.ts xs ≡ at k.ts ys)
      → xs ≡ ys
  same_rows t [] [] sx sy same = refl
  same_rows t [] (y ∷ ys) sx sy same = let e = same y in ground arith
  same_rows t (x ∷ xs) [] sx sy same = let e = same x in ground arith
  same_rows t (x ∷ xs) (y ∷ ys) (hx, sx) (hy, sy) same =
      let e = same_head x y xs ys sx sy (same x) (same y) in
      let rest =
        same_rows (suc x.ts) xs ys sx (rw (ap (λ c. c.ts) e) sy)
          (λ k. same_tail x y xs ys sx sy (ap (λ c. c.ts) e) k (same k)) in
      λ i. e i ∷ rest i

  at-insert_sorted :
      (u : ℕ) (c : Candle D) (ds : List (Candle D))
      → at u (insert_sorted c ds) ≡ (if c.ts == u then some c else at u ds)
  at-insert_sorted u c [] = refl
  at-insert_sorted u c (d ∷ ds) = let ih = at-insert_sorted u c ds in ground arith

  at-order_by_ts : (u : ℕ) (cs : List (Candle D)) → at u (order_by_ts cs) ≡ at u cs
  at-order_by_ts u [] = refl
  at-order_by_ts u (c ∷ cs) =
      at-insert_sorted u c (order_by_ts cs)
      ∙ ap (λ o. if c.ts == u then some c else o) (at-order_by_ts u cs)

  insert_sorted-IsStrict :
      (t : ℕ) (c : Candle D) (ds : List (Candle D))
      → t ≤ c.ts
      → at c.ts ds ≡ none
      → IsStrict t ds
      → IsStrict t (insert_sorted c ds)
  insert_sorted-IsStrict t c [] h e s = (h, tt)
  insert_sorted-IsStrict t c (d ∷ ds) h e (k, s) =
      split (leb c.ts d.ts) refl (insert_sorted-IsStrict (suc d.ts) c ds)
    where
      split :
          (b : Bool)
          → leb c.ts d.ts ≡ b
          → (suc d.ts ≤ c.ts
              → at c.ts ds ≡ none
              → IsStrict (suc d.ts) ds
              → IsStrict (suc d.ts) (insert_sorted c ds))
          → IsStrict t (if b then c ∷ d ∷ ds else d ∷ insert_sorted c ds)
      split true l ih = (h, (ground arith, s))
      split false l ih = (k, ih (ground arith) (ground arith) s)

  module _ (symbol : String) (window : ℕ → Bool) where
    abbrev pub in_window : Candle D → Bool
    in_window row = str_eq row.symbol symbol && window row.ts

    at-filterb :
        (k : Candle D) (rows : List (Candle D))
        → at k.ts (filterb in_window rows)
          ≡ (if window k.ts then row_of (record k { symbol = symbol }) rows else none)
    at-filterb k [] = ground arith
    at-filterb k (row ∷ rows) = ground (arith, at-filterb k rows, eq_iff row.symbol symbol)

    filterb-IsStrict :
        (rows : List (Candle D)) → IsKeyed rows → IsStrict 0 (order_by_ts (filterb in_window rows))
    filterb-IsStrict [] keyed = tt
    filterb-IsStrict (row ∷ rows) (fresh, keyed) =
        split (in_window row) refl (filterb-IsStrict rows keyed)
      where
        own : in_window row ≡ true → record row { symbol = symbol } ≡ row
        own e = ground (arith, eq_iff row.symbol symbol)

        neither : (b : Bool) → ◌≡◌ {A = Option (Candle D)} (if b then none else none) none
        neither true = refl
        neither false = refl

        unseen : in_window row ≡ true → at row.ts (order_by_ts (filterb in_window rows)) ≡ none
        unseen e =
            at-order_by_ts row.ts (filterb in_window rows)
            ∙ at-filterb row rows
            ∙ ap (λ c. if window row.ts then row_of c rows else none) (own e)
            ∙ ap (λ o. if window row.ts then o else none) (row_of-not_has_key row rows fresh)
            ∙ neither (window row.ts)

        split :
            (b : Bool)
            → in_window row ≡ b
            → IsStrict 0 (order_by_ts (filterb in_window rows))
            → IsStrict 0
                (order_by_ts (if b then row ∷ filterb in_window rows else filterb in_window rows))
        split true e ih =
            insert_sorted-IsStrict 0 row (order_by_ts (filterb in_window rows)) (omega arith)
              (unseen e) ih
        split false e ih = ih

    pub order_by_ts-filterb :
        (table rows : List (Candle D))
        → IsKeyed table
        → IsKeyed rows
        → ((k : Candle D) → row_of k table ≡ row_of k rows)
        → order_by_ts (filterb in_window table) ≡ order_by_ts (filterb in_window rows)
    order_by_ts-filterb table rows p q same =
        same_rows 0 (order_by_ts (filterb in_window table)) (order_by_ts (filterb in_window rows))
          (filterb-IsStrict table p) (filterb-IsStrict rows q)
          (λ k.
            view table k
            ∙ ap (λ o. if window k.ts then o else none) (same (record k { symbol = symbol }))
            ∙ sym (view rows k))
      where
        view :
            (cs : List (Candle D)) (k : Candle D)
            → at k.ts (order_by_ts (filterb in_window cs))
              ≡ (if window k.ts then row_of (record k { symbol = symbol }) cs else none)
        view cs k = at-order_by_ts k.ts (filterb in_window cs) ∙ at-filterb k cs

  -- A query's WHERE is a symbol and a window.
  pub windowed :
      (symbol : String) (p q : ℕ → Bool) (rows : List (Candle D))
      → filterb (λ row. str_eq row.symbol symbol && p row.ts && q row.ts) rows
        ≡ filterb (in_window symbol (λ u. p u && q u)) rows
  windowed symbol p q rows =
      ap (λ (f : Candle D → Bool). filterb f rows)
        (λ i row. and_assoc (str_eq row.symbol symbol) (p row.ts) (q row.ts) i)

  -- Two batches tell of no key two different first candles.
  abbrev pub Agree : List (Candle D) → List (Candle D) → Type 0
  Agree xs ys = (k x y : Candle D) → row_of k xs ≡ some x → row_of k ys ≡ some y → x ≡ y

  or_else_comm :
      (o p : Option (Candle D))
      → ((x y : Candle D) → o ≡ some x → p ≡ some y → x ≡ y)
      → or_else o p ≡ or_else p o
  or_else_comm none none h = refl
  or_else_comm none (some y) h = refl
  or_else_comm (some x) none h = refl
  or_else_comm (some x) (some y) h = ap some (h x y refl refl)

  row_of-insert_candles_comm :
      (k : Candle D) (table xs ys : List (Candle D))
      → Agree xs ys
      → row_of k (insert_candles (insert_candles table xs).0 ys).0
        ≡ row_of k (insert_candles (insert_candles table ys).0 xs).0
  row_of-insert_candles_comm k table xs ys agree =
      both xs ys
      ∙ ap (or_else (row_of k table)) (or_else_comm (row_of k xs) (row_of k ys) (agree k))
      ∙ sym (both ys xs)
    where
      both :
          (ds es : List (Candle D))
          → row_of k (insert_candles (insert_candles table ds).0 es).0
            ≡ or_else (row_of k table) (or_else (row_of k ds) (row_of k es))
      both ds es =
          row_of-insert_candles k (insert_candles table ds).0 es
          ∙ ap (λ o. or_else o (row_of k es)) (row_of-insert_candles k table ds)
          ∙ or_else_assoc (row_of k table) (row_of k ds) (row_of k es)

  -- What stands in a window of times does not depend on which batch the database took first.
  pub order_by_ts-insert_candles_comm :
      (symbol : String) (window : ℕ → Bool) (table xs ys : List (Candle D))
      → IsKeyed table
      → Agree xs ys
      → order_by_ts
          (filterb (in_window symbol window) (insert_candles (insert_candles table xs).0 ys).0)
        ≡ order_by_ts
            (filterb (in_window symbol window) (insert_candles (insert_candles table ys).0 xs).0)
  order_by_ts-insert_candles_comm symbol window table xs ys keyed agree =
      order_by_ts-filterb symbol window (insert_candles (insert_candles table xs).0 ys).0
        (insert_candles (insert_candles table ys).0 xs).0 (twice xs ys) (twice ys xs)
        (λ k. row_of-insert_candles_comm k table xs ys agree)
    where
      twice : (ds es : List (Candle D)) → IsKeyed (insert_candles (insert_candles table ds).0 es).0
      twice ds es =
          IsKeyed-insert_candles (insert_candles table ds).0 es
            (IsKeyed-insert_candles table ds keyed)
