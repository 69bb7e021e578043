-- ===== src/Common.antt =====
-- src/crypto_pipeline/common: what every component shares.
pub mod Errors
pub mod Candle
pub mod Json
pub mod Dict
pub mod Parse
pub mod Time
