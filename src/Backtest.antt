-- ===== src/Backtest.antt =====
-- src/crypto_pipeline/backtest: one module for each file.
pub mod Numbers
pub mod Frame
pub mod Simulation
pub mod Signals
pub mod Indicators
pub mod Metrics
pub mod Runner
pub mod Sweep
pub mod Report
pub mod Command
