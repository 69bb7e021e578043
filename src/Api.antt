-- ===== src/Api.antt =====
-- src/crypto_pipeline/api: queries on the table and the handlers over them.
pub mod Queries
pub mod Routes
pub mod Requests
pub mod App
pub mod Backtests
pub mod Capacity
pub mod Wire
