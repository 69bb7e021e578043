-- ===== src/Ingester.antt =====
-- src/crypto_pipeline/ingester: live candles from the exchange to the topic.
pub mod Stream
pub mod Backoff
pub mod Cancel
pub mod Run
