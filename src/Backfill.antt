-- ===== src/Backfill.antt =====
-- src/crypto_pipeline/backfill: historical candles over REST.
pub mod Fetch
pub mod Command
