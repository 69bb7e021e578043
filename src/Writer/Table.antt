-- ===== src/Writer/Table.antt =====
-- src/crypto_pipeline/writer/db.py and common/db.py: the table `candles_1m` of
-- migrations/versions, as the list of its rows, and what the SQL statements of the program do to it.
pub mod Keys
pub mod Replay
pub mod Views
pub mod Store
use crypto_market_data_pipel.Prelude.{
  ℕ, zero, suc, ◌+◌, ◌-◌, Bool, true, false, ◌&&◌, ◌||◌, Option, none, some, List, [], ◌∷◌, ◌++◌,
  ◌==◌, str_eq, leb, ltb, String, length, filterb, if◌then◌else◌,
}
use crypto_market_data_pipel.Common.Candle.{Candle}

module _ {D : Type 0} where
  -- The primary key is (symbol, ts).
  abbrev pub same_key : Candle D → Candle D → Bool
  same_key a b = str_eq a.symbol b.symbol && (a.ts == b.ts)

  abbrev pub has_key : Candle D → List (Candle D) → Bool
  has_key k [] = false
  has_key k (row ∷ rows) = same_key row k || has_key k rows

  -- INSERT INTO candles_1m … SELECT … FROM candles_stage ON CONFLICT (symbol, ts) DO NOTHING: a
  -- staged row whose key is in the table, also from a row staged before it, is dropped.
  unfoldable pub insert_select : List (Candle D) → List (Candle D) → List (Candle D)
  insert_select table [] = table
  insert_select table (row ∷ stage) =
      insert_select (if has_key row table then table else table ++ (row ∷ [])) stage

  -- COPY candles_stage FROM STDIN, a row for each candle, into an empty temporary table.
  unfoldable pub copy_rows : List (Candle D) → List (Candle D) → List (Candle D)
  copy_rows stage [] = stage
  copy_rows stage (candle ∷ candles) = copy_rows (stage ++ (candle ∷ [])) candles

  -- The new table, and the difference of the two counts. The connection's block commits at its end.
  unfoldable pub insert_candles : List (Candle D) → List (Candle D) → List (Candle D) × ℕ
  unfolding insert_select copy_rows
  insert_candles table candles =
      let start_count = length table in
      let stage = copy_rows [] candles in
      let table' = insert_select table stage in
      let end_count = length table' in (table', end_count - start_count)

  -- ORDER BY ts
  abbrev pub insert_sorted : Candle D → List (Candle D) → List (Candle D)
  insert_sorted c [] = c ∷ []
  insert_sorted c (d ∷ ds) =
      let rest = insert_sorted c ds in if leb c.ts d.ts then c ∷ d ∷ ds else d ∷ rest

  abbrev pub order_by_ts : List (Candle D) → List (Candle D)
  order_by_ts [] = []
  order_by_ts (c ∷ cs) = insert_sorted c (order_by_ts cs)

  -- SELECT … WHERE symbol = %s AND ts >= %s AND ts < %s ORDER BY ts
  unfoldable pub read_candles : List (Candle D) → String → ℕ → ℕ → List (Candle D)
  read_candles table symbol start end =
      order_by_ts
        (filterb (λ row. str_eq row.symbol symbol && leb start row.ts && ltb row.ts end) table)
