-- ===== src/Dashboard.antt =====
-- src/crypto_pipeline/dashboard: the charts, the client of the API and the two pages.
pub mod Charts
pub mod Client
pub mod Calls
pub mod Market
pub mod Form
