-- ===== src/Examples/Reference.antt =====
-- Reference implementations of the interfaces, which show that what the theorems assume of them can
-- be met: conversions, an exchange with a fixed history, a producer and a consumer.
use mathlib.Core.List.{append-nil}
use mathlib.Core.List.{Permᴰ}
use mathlib.Core.List.Permᴰ
use mathlib.Core.Path.{subst}
use crypto_market_data_pipel.Prelude.{
  ℕ, zero, suc, ◌*◌, ◌≡◌, ◌<◌, refl, sym, ◌∙◌, length, ap, inr, true, Option, none, some, List, [],
  ◌∷◌, ◌++◌, String, take,
}
use crypto_market_data_pipel.Common.Errors.{Result, ok, err, invalid_operation}
use crypto_market_data_pipel.Common.Candle.{Candle}
use crypto_market_data_pipel.Common.Json.{Json, text, Codec, IsFaithful}
use crypto_market_data_pipel.Common.Parse.{Kline}
use crypto_market_data_pipel.Backfill.Fetch.{
  Client, World, Params, Response, absent, failed, response,
}
use crypto_market_data_pipel.Backfill.Fetch.Pages.{between}
use crypto_market_data_pipel.Backfill.Fetch.Complete.{IsHonest}
use crypto_market_data_pipel.Ingester.Stream.{Producer}
use crypto_market_data_pipel.Ingester.Stream.Publishing.{AlwaysAcks}
use crypto_market_data_pipel.Writer.Consumer.{Consumer}
use crypto_market_data_pipel.Writer.Consumer.Batches.{concat}
use crypto_market_data_pipel.Writer.Consumer.AtLeastOnce.{Offsets}
use crypto_market_data_pipel.Writer.Consumer.Topic.{Topic}

-- A moment is written as a text of that many marks.
pub marks : ℕ → String
marks zero = String.[]
marks (suc n) = String.◌∷◌ "1" (marks n)

unfoldable pub count_marks : String → ℕ
count_marks String.[] = 0
count_marks (String.◌∷◌ c s) = suc (count_marks s)

pub count_marks-marks : (n : ℕ) → count_marks (marks n) ≡ n
unfolding count_marks marks
count_marks-marks zero = refl
count_marks-marks (suc n) = ap suc (count_marks-marks n)

-- Decimals are their texts, and bytes are the values that they encode.
abbrev read_decimal : Json → Result String
read_decimal (text s) = ok s
read_decimal _ = err invalid_operation

abbrev read_moment : String → Result ℕ
read_moment s = ok (count_marks s)

abbrev pub codec : Codec
codec = record {
  D = String;
  Bytes = Json;
  decimal = read_decimal;
  str = λ d. d;
  fromisoformat = λ s. ok (count_marks s);
  isoformat = marks;
  loads = λ j. ok j;
  dumps = λ j. j;
}

pub codec-IsFaithful : IsFaithful codec
codec-IsFaithful = record {
  decimal-str = λ d. refl;
  fromisoformat-isoformat = λ t. ap (λ (n : ℕ). ok n) (count_marks-marks t);
  loads-dumps = λ j. refl;
}

abbrev pub kline : ℕ → Kline
kline minutes = record {
  open_time = 60_000 * minutes;
  open_text = "10";
  high_text = "12";
  low_text = "9";
  close_text = "11";
  volume_text = "1";
}

abbrev pub candle : ℕ → Candle String
candle minutes = record {
  symbol = "BTCUSDT";
  ts = 60_000_000 * minutes;
  open_price = "10";
  high = "12";
  low = "9";
  close = "11";
  volume = "1";
}

abbrev pub history : String → List Kline
history symbol = kline 1 ∷ kline 2 ∷ kline 3 ∷ kline 5 ∷ kline 6 ∷ []

abbrev serve : Params → Option ℕ → Option Response
serve p none = some failed
serve p (some e) = some (response absent (take p.limit (between p.start_time e (history p.symbol))))

abbrev pub exchange : Client (Unit {0})
exchange = record { get = λ p s. (s, serve p p.end_time) }

pub exchange-IsHonest : IsHonest history exchange
exchange-IsHonest = record { serves = λ p e s h. (absent, cc, ap (serve p) h) }

abbrev pub offline : Client (Unit {0})
offline = record { get = λ p s. (s, none) }

abbrev pub world : World (Unit {0})
world = record { remote = tt; slept = 0 }

abbrev pub broker : Producer Json (Unit {0})
broker = record { send_and_wait = λ p topic value key. (p, true) }

pub broker-AlwaysAcks : AlwaysAcks broker
broker-AlwaysAcks = record { acks = λ p topic value key. refl }

-- The messages of one partition: behind the committed offset, delivered since, and not delivered.
pub record Partition : Type 0 where
  pub behind : List Json
  pub inflight : List Json
  pub ahead : List Json

abbrev one_batch : List Json → List (List Json)
one_batch [] = []
one_batch (msg ∷ msgs) = (msg ∷ msgs) ∷ []

abbrev pub kafka : Consumer Json Partition
kafka = record {
  getmany = λ b. (
    record b { inflight = b.inflight ++ concat (one_batch b.ahead); ahead = [] },
    one_batch b.ahead,
  );
  commit = λ b. (record b { behind = b.behind ++ b.inflight; inflight = [] }, true);
  seek_to_committed = λ b. record b { inflight = []; ahead = b.inflight ++ b.ahead };
}

abbrev pub offsets : Offsets kafka
offsets = record {
  behind = λ b. b.behind;
  inflight = λ b. b.inflight;
  behind-getmany = λ b. refl;
  inflight-getmany = λ b. refl;
  behind-seek = λ b. refl;
  inflight-seek = λ b. refl;
  inflight-commit = λ b h. refl;
  behind-commit = λ b. inr refl;
}

pub concat-one_batch : (msgs : List Json) → concat (one_batch msgs) ≡ msgs
concat-one_batch [] = refl
concat-one_batch (msg ∷ msgs) = append-nil (msg ∷ msgs)

abbrev pub topic : Topic kafka
topic = record {
  offsets = offsets;
  ahead = λ b. b.ahead;
  ahead-getmany = λ b.
      subst (λ l. Permᴰ l b.ahead)
        (sym (append-nil (concat (one_batch b.ahead)) ∙ concat-one_batch b.ahead))
        (Permᴰ.refl b.ahead);
  delivers = λ b h. subst (λ l. 0 < length l) (sym (concat-one_batch b.ahead)) h;
  ahead-seek = λ b. Permᴰ.refl (b.inflight ++ b.ahead);
  ahead-commit = λ b. refl;
  commits = λ b. refl;
  behind-commits = λ b. refl;
}
