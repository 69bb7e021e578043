-- ===== src/Examples/Calls.antt =====
-- Instances for the calls of src/crypto_pipeline/dashboard/api_client.py.
use crypto_market_data_pipel.Prelude.{
  ℕ, ◌+◌, ◌*◌, ◌/◌, ◌%◌, ◌≡◌, refl, ap, ◌∙◌, Bool, true, false, ◌==◌, String, arith,
}
use crypto_market_data_pipel.Common.Errors.{Result, ok, err, type_error}
use crypto_market_data_pipel.Common.Candle.{minute}
use crypto_market_data_pipel.Common.Json.{Json, bool, num, text}
use crypto_market_data_pipel.Common.Time.{Stamp}
use crypto_market_data_pipel.Api.Backtests.{backtest_endpoint}
use crypto_market_data_pipel.Api.Wire.{Readers, backtest_route}
use crypto_market_data_pipel.Dashboard.Calls.{Writers, backtest_body}
use crypto_market_data_pipel.Dashboard.Calls.Served.{ReadsBack, backtest_route-backtest_body}
use crypto_market_data_pipel.Examples.Reference.{marks, count_marks, count_marks-marks}
use crypto_market_data_pipel.Examples.Backtest.{numbers, ticks_from}
use crypto_market_data_pipel.Examples.Handlers.{request}

-- A moment is written as twice its microseconds, and one more if it has a time zone.
abbrev code_of : Bool → ℕ → ℕ
code_of true micros = 2 * micros + 1
code_of false micros = 2 * micros

abbrev stamp_of : ℕ → Stamp
stamp_of k = record { aware = k % 2 == 1; micros = k / 2 }

abbrev writers : Writers numbers
writers = record { isoformat = λ t. marks (code_of t.aware t.micros); str_int = marks; str = marks }

abbrev read_text : Json → Result String
read_text (text s) = ok s
read_text _ = err type_error

abbrev read_int : Json → Result ℕ
read_int (num k) = ok k
read_int (text s) = ok (count_marks s)
read_int _ = err type_error

abbrev read_bool : Json → Result Bool
read_bool (bool b) = ok b
read_bool _ = err type_error

abbrev read_datetime : Json → Result Stamp
read_datetime (text s) = ok (stamp_of (count_marks s))
read_datetime _ = err type_error

abbrev readers : Readers numbers
readers = record {
  as_text = read_text;
  as_datetime = read_datetime;
  as_int = read_int;
  as_bool = read_bool;
  as_decimal = read_int;
  rate_default = 0;
}

stamp_of-code_of :
    (aware : Bool) (micros : ℕ)
    → stamp_of (code_of aware micros) ≡ record { aware = aware; micros = micros }
stamp_of-code_of true micros = ground arith
stamp_of-code_of false micros = ground arith

reads_back : ReadsBack numbers readers writers
reads_back = record {
  as_text-text = λ s. refl;
  as_datetime-isoformat = λ t.
      ap (λ (k : ℕ). ok (stamp_of k)) (count_marks-marks (code_of t.aware t.micros))
      ∙ ap (λ (s : Stamp). ok s) (stamp_of-code_of t.aware t.micros);
  as_int-num = λ k. refl;
  as_int-str_int = λ k. ap (λ (l : ℕ). ok l) (count_marks-marks k);
  as_bool-bool = λ b. refl;
  as_decimal-str = λ d. ap (λ (l : ℕ). ok l) (count_marks-marks d);
}

backtest_route-backtest_body_example :
    backtest_route numbers readers (ticks_from 8 0) true (backtest_body numbers writers request)
    ≡ backtest_endpoint numbers (ticks_from 8 0) true request
backtest_route-backtest_body_example =
    backtest_route-backtest_body numbers readers writers reads_back (ticks_from 8 0) true request

abbrev from : Stamp
from = record { aware = true; micros = minute }

abbrev until : Stamp
until = record { aware = false; micros = 5 * minute }
