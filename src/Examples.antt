-- ===== src/Examples.antt =====
-- Tests and concrete instances of the theorems.
pub mod Reference
pub mod Common
pub mod Backfill
pub mod Backtest
pub mod Indicators
pub mod Runs
pub mod Server
pub mod Writer
pub mod Ingester
pub mod Pipeline
pub mod Api
pub mod Handlers
pub mod Dashboard
pub mod Calls
pub mod Store
