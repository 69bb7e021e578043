-- ===== src/Examples/Common.antt =====
-- Instances for src/crypto_pipeline/common.
use crypto_market_data_pipel.Prelude.{◌≡◌}
use crypto_market_data_pipel.Common.Errors.{ok}
use crypto_market_data_pipel.Common.Parse.{
  candle_to_json, parse_kafka_candle, parse_kafka_candle-candle_to_json,
}
use crypto_market_data_pipel.Examples.Reference.{codec, codec-IsFaithful, candle}

parse_kafka_candle-candle_to_json_example :
    parse_kafka_candle codec (candle_to_json codec (candle 3)) ≡ ok (candle 3)
parse_kafka_candle-candle_to_json_example =
    parse_kafka_candle-candle_to_json codec codec-IsFaithful (candle 3)
