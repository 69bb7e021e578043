-- ===== src/Common/Time.antt =====
-- src/crypto_pipeline/common/time.py: moments with and without a time zone.
use crypto_market_data_pipel.Prelude.{ℕ, Bool, true, false, leb}
use crypto_market_data_pipel.Common.Errors.{Result, ok, err, type_error}

-- A `datetime`: whether it has a time zone, and its microseconds since 1970, of UTC if it has one,
-- and of its own clock if not.
pub record Stamp : Type 0 where
  pub aware : Bool
  pub micros : ℕ

-- A moment without a time zone is taken to be in UTC.
abbrev pub to_utc : Stamp → ℕ
to_utc value = value.micros

-- `a <= b`, which raises on one of each kind.
abbrev pub compare_kinds : Bool → Bool → Bool → Result Bool
compare_kinds true true b = ok b
compare_kinds false false b = ok b
compare_kinds true false b = err type_error
compare_kinds false true b = err type_error

abbrev pub le_stamp : Stamp → Stamp → Result Bool
le_stamp a b = compare_kinds a.aware b.aware (leb a.micros b.micros)
