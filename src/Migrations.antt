-- ===== src/Migrations.antt =====
-- src/migrations/versions: the two revisions of the schema, each with its way up and down, on the part
-- of the database that they touch. What TimescaleDB does, and the order in which a SELECT without ORDER BY
-- gives its rows, are parameters.
use mathlib.Core.List.{append-nil, append_assoc, Permᴰ}
use mathlib.Core.Path.{subst}
use crypto_market_data_pipel.Prelude.{
  ◌≡◌, refl, sym, ap, ◌∙◌, Bool, true, false, Option, none, some, List, [], ◌∷◌, ◌++◌, All, eq_iff,
  arith,
}
use crypto_market_data_pipel.Common.Errors.{Result, ok, err, ◌>>=◌, database_error}
use crypto_market_data_pipel.Common.Candle.{Candle}
use crypto_market_data_pipel.Writer.Table.{same_key, has_key}
use crypto_market_data_pipel.Writer.Table.Keys.{IsKeyed, has_key-append}

module _ (D : Type 0) where
  -- The table `candles_1m`, with its primary key (symbol, ts): its rows, and whether it is a hypertable.
  pub record Table : Type 0 where
    pub rows : List (Candle D)
    pub hyper : Bool

  -- Whether the extension timescaledb is there, the table, and the temporary table of the session.
  pub record Database : Type 0 where
    pub timescaledb : Bool
    pub candles_1m : Option Table
    pub candles_1m_backup : Option (List (Candle D))

  -- PostgreSQL with TimescaleDB.
  pub record Server : Type 0 where
    -- CREATE EXTENSION IF NOT EXISTS timescaledb, from whether it is there.
    pub create_extension : Bool → Result Bool
    -- SELECT create_hypertable('candles_1m', …, migrate_data => true), with the extension or without.
    pub create_hypertable : Bool → Table → Result Table
    -- The rows that SELECT * gives, in its order.
    pub select : List (Candle D) → List (Candle D)

module _ {D : Type 0} where
  -- The documented behaviour of a server that has the extension's files: the extension is created, a
  -- plain table becomes a hypertable of the same rows, in some order, and SELECT * gives each row once.
  pub record IsDocumented (server : Server D) : Type 0 where
    pub installs : (there : Bool) → server.create_extension there ≡ ok true
    pub migrates :
        (rows : List (Candle D))
        → (rows' : List (Candle D)) × (server.create_hypertable true
              (record { rows = rows; hyper = false })
            ≡ ok (record { rows = rows'; hyper = true }))
          × Permᴰ rows rows'
    pub selects : (rows : List (Candle D)) → Permᴰ rows (server.select rows)

  -- CREATE TABLE candles_1m (…)
  abbrev pub create_table : Database D → Option (Table D) → Result (Database D)
  create_table db none = ok (record db { candles_1m = some (record { rows = []; hyper = false }) })
  create_table db (some t) = err database_error

  -- DROP TABLE candles_1m
  abbrev pub drop_table : Database D → Option (Table D) → Result (Database D)
  drop_table db none = err database_error
  drop_table db (some t) = ok (record db { candles_1m = none })

  -- The conversion of the table, if it is there.
  abbrev pub convert : Server D → Database D → Option (Table D) → Result (Database D)
  convert server db none = err database_error
  convert server db (some t) = do
    converted ← server.create_hypertable db.timescaledb t
    ok (record db { candles_1m = some converted })

  -- CREATE TEMP TABLE candles_1m_backup AS SELECT * FROM candles_1m
  abbrev pub back_up :
      Server D → Database D → Option (List (Candle D)) → Option (Table D) → Result (Database D)
  back_up server db none (some t) =
      ok (record db { candles_1m_backup = some (server.select t.rows) })
  back_up server db b t = err database_error

  -- INSERT INTO candles_1m SELECT …, under the primary key
  unfoldable pub insert_rows : List (Candle D) → List (Candle D) → Result (List (Candle D))
  insert_rows table [] = ok table
  insert_rows table (row ∷ rows) = elim (has_key row table) [
    | true ↦ err database_error
    | false ↦ insert_rows (table ++ (row ∷ [])) rows
  ]

  abbrev pub restore :
      Server D → Database D → Option (List (Candle D)) → Option (Table D) → Result (Database D)
  restore server db (some backup) (some t) = do
    rows ← insert_rows t.rows (server.select backup)
    ok (record db { candles_1m = some (record t { rows = rows }) })
  restore server db b t = err database_error

  -- Revision f2ef4eaa6414.
  abbrev pub upgrade_f2ef4eaa6414 : Database D → Result (Database D)
  upgrade_f2ef4eaa6414 db = create_table db db.candles_1m

  abbrev pub downgrade_f2ef4eaa6414 : Database D → Result (Database D)
  downgrade_f2ef4eaa6414 db = drop_table db db.candles_1m

  -- Revision 50cb58adb492.
  unfoldable pub upgrade_50cb58adb492 : Server D → Database D → Result (Database D)
  upgrade_50cb58adb492 server db = do
    there ← server.create_extension db.timescaledb
    convert server (record db { timescaledb = there }) db.candles_1m

  unfoldable pub downgrade_50cb58adb492 : Server D → Database D → Result (Database D)
  downgrade_50cb58adb492 server db = do
    kept ← back_up server db db.candles_1m_backup db.candles_1m
    dropped ← drop_table kept kept.candles_1m
    plain ← create_table dropped dropped.candles_1m
    restore server plain plain.candles_1m_backup plain.candles_1m

  same_key_sym : (a b : Candle D) → same_key a b ≡ same_key b a
  same_key_sym a b = ground (arith, eq_iff a.symbol b.symbol, eq_iff b.symbol a.symbol)

  fresh_behind :
      (row : Candle D) (table rows : List (Candle D))
      → has_key row rows ≡ false
      → All (λ r. has_key r table ≡ false) rows
      → All (λ r. has_key r (table ++ (row ∷ [])) ≡ false) rows
  fresh_behind row table [] h f = tt
  fresh_behind row table (r ∷ rows) h (f, fs) = (
    ground (arith, has_key-append r table (row ∷ []), same_key_sym row r),
    fresh_behind row table rows (ground arith) fs,
  )

  insert_rows-fresh :
      (table rows : List (Candle D))
      → IsKeyed rows
      → All (λ r. has_key r table ≡ false) rows
      → insert_rows table rows ≡ ok (table ++ rows)
  unfolding insert_rows
  insert_rows-fresh table [] k f = ap (λ l. ok l) (sym (append-nil table))
  insert_rows-fresh table (row ∷ rows) (k, ks) (f, fs) =
      let rest =
        insert_rows-fresh (table ++ (row ∷ [])) rows ks (fresh_behind row table rows k fs) in
      rw (insert_rows, f) (rest ∙ ap (λ l. ok l) (append_assoc table (row ∷ []) rows))

  fresh_of_empty : (rows : List (Candle D)) → All (λ r. has_key r [] ≡ false) rows
  fresh_of_empty [] = tt
  fresh_of_empty (r ∷ rows) = (refl, fresh_of_empty rows)

  -- A database with the table, and with no backup in the session or one.
  abbrev pub with_table : Bool → Bool → List (Candle D) → Option (List (Candle D)) → Database D
  with_table timescaledb hyper rows backup = record {
    timescaledb = timescaledb;
    candles_1m = some (record { rows = rows; hyper = hyper });
    candles_1m_backup = backup;
  }

  has_key-Permᴰ :
      {xs ys : List (Candle D)} (k : Candle D) → Permᴰ xs ys → has_key k xs ≡ has_key k ys
  has_key-Permᴰ k Permᴰ.nil = refl
  has_key-Permᴰ k (Permᴰ.cons e p) = ground (arith, e, has_key-Permᴰ k p)
  has_key-Permᴰ k (Permᴰ.swap e e') = ground (arith, e, e')
  has_key-Permᴰ k (Permᴰ.trans p q) = has_key-Permᴰ k p ∙ has_key-Permᴰ k q

  IsKeyed-swap : (a b : Candle D) (l : List (Candle D)) → IsKeyed (a ∷ b ∷ l) → IsKeyed (b ∷ a ∷ l)
  IsKeyed-swap a b l (ha, (hb, hl)) =
      (ground (arith, same_key_sym a b), (ground (arith, same_key_sym a b), hl))

  IsKeyed-Permᴰ : {xs ys : List (Candle D)} → Permᴰ xs ys → IsKeyed xs → IsKeyed ys
  IsKeyed-Permᴰ Permᴰ.nil h = tt
  IsKeyed-Permᴰ (Permᴰ.cons {a} {b} {l₁} e p) (h, hs) =
      (sym (has_key-Permᴰ b p) ∙ ap (λ x. has_key x l₁) (sym e) ∙ h, IsKeyed-Permᴰ p hs)
  IsKeyed-Permᴰ (Permᴰ.swap {a} {b} {a'} {b'} {l} e e') h =
      subst (λ x. IsKeyed (x ∷ b' ∷ l)) e'
        (subst (λ y. IsKeyed (b ∷ y ∷ l)) e (IsKeyed-swap a b l h))
  IsKeyed-Permᴰ (Permᴰ.trans p q) h = IsKeyed-Permᴰ q (IsKeyed-Permᴰ p h)

  -- The conversion to a hypertable and back, on a server that behaves as documented: from a database with
  -- a plain table whose rows have different keys, and with no backup in the session, both succeed. After
  -- the way down the table is a plain table again, of the rows that it had, each once, in some order and
  -- with different keys; the session has a backup of them, and the extension stays.
  pub downgrade_50cb58adb492-upgrade :
      (server : Server D)
      → IsDocumented server
      → (timescaledb : Bool) (rows : List (Candle D)) → IsKeyed rows
      → (up : Database D) × (rows' : List (Candle D)) × (backup : List (Candle D))
        × (upgrade_50cb58adb492 server (with_table timescaledb false rows none) ≡ ok up)
        × (downgrade_50cb58adb492 server up ≡ ok (with_table true false rows' (some backup)))
        × Permᴰ rows rows'
        × Permᴰ rows backup
        × IsKeyed rows'
  unfolding upgrade_50cb58adb492 downgrade_50cb58adb492
  downgrade_50cb58adb492-upgrade server laws timescaledb rows k =
      let (moved, converted, same) = laws.migrates rows in
      let up = with_table true true moved none in
      let backup = server.select moved in
      let rows' = server.select backup in
      let saved : Permᴰ rows backup = Permᴰ.trans same (laws.selects moved) in
      let back : Permᴰ rows rows' = Permᴰ.trans saved (laws.selects backup) in
      let keyed = IsKeyed-Permᴰ back k in
      let filled = insert_rows-fresh [] rows' keyed (fresh_of_empty rows') in
      (
        up,
        rows',
        backup,
        ap
              (λ r. r >>= λ there.
                convert server
                  (record (with_table timescaledb false rows none) { timescaledb = there })
                  (some (record { rows = rows; hyper = false })))
              (laws.installs timescaledb)
            ∙ ap (λ r. r >>= λ t. ok (record up { candles_1m = some t })) converted,
        ap (λ r. r >>= λ rs. ok (with_table true false rs (some backup))) filled,
        back,
        saved,
        keyed,
      )
