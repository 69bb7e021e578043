-- ===== src/Api/App.antt =====
-- src/crypto_pipeline/api/app.py: what becomes of the exceptions of a handler, and the two probes.
use crypto_market_data_pipel.Prelude.{ℕ, String}
use crypto_market_data_pipel.Common.Errors.{Error, Result, ok, err, database_error}
use crypto_market_data_pipel.Api.Routes.{Reply, reply, http_exception}

-- `unhandled_exception`, and `database_unavailable` for an OperationalError.
abbrev pub status_of : Error → ℕ
status_of database_error = 503
status_of _ = 500

-- The reply of a handler that may raise.
abbrev pub respond : {A : Type 0} → Result (Reply A) → Reply A
respond (ok r) = r
respond (err e) = http_exception (status_of e)

abbrev pub health : Reply String
health = reply "ok"

-- What a probe of the pool meets: an answer, PoolTimeout or OperationalError, or another exception.
pub data Probe : Type 0 where
  answered unavailable : Probe
  broken : Error → Probe

abbrev pub ready : Probe → Result (Reply String)
ready answered = ok (reply "ready")
ready unavailable = ok (http_exception 503)
ready (broken e) = err e
