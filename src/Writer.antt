-- ===== src/Writer.antt =====
-- src/crypto_pipeline/writer: candles from the topic into the table.
pub mod Table
pub mod Consumer
