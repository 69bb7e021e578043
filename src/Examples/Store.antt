-- ===== src/Examples/Store.antt =====
-- An instance for the table as its readers see it.
use mathlib.Core.Quot.{Quot}
use crypto_market_data_pipel.Prelude.{◌*◌, ◌≡◌, refl, List, [], ◌∷◌, ◌++◌, String, String-IsSet}
use crypto_market_data_pipel.Common.Candle.{Candle, minute}
use crypto_market_data_pipel.Writer.Table.{read_candles}
use crypto_market_data_pipel.Writer.Table.Keys.{row_of, or_else}
use crypto_market_data_pipel.Writer.Table.Store.{
  KeyedTable, Store, inserted, put, lookup, select, Store-laws,
}
use crypto_market_data_pipel.Examples.Reference.{candle}

abbrev table : KeyedTable String
table = (candle 1 ∷ candle 2 ∷ [], (refl, (refl, tt)))

abbrev store : Store String
store = Quot.mk (candle 3 ∷ [], (refl, tt))

abbrev batch : List (Candle String)
batch = candle 2 ∷ candle 4 ∷ []

Store-laws_example :
    (put String batch (Quot.mk table) ≡ Quot.mk (inserted String batch table))
    × (select String String-IsSet "BTCUSDT" minute (3 * minute) (Quot.mk table)
        ≡ read_candles table.0 "BTCUSDT" minute (3 * minute))
    × (lookup String String-IsSet (candle 4) (put String batch store)
        ≡ or_else (lookup String String-IsSet (candle 4) store) (row_of (candle 4) batch))
    × (put String batch (put String batch store) ≡ put String batch store)
    × (put String (candle 3 ∷ []) (put String batch store)
        ≡ put String (batch ++ (candle 3 ∷ [])) store)
Store-laws_example =
    Store-laws String String-IsSet table store (candle 4) batch (candle 3 ∷ []) "BTCUSDT" minute
      (3 * minute)
