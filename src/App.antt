-- ===== src/App.antt =====
-- internal/app: the validation of input and the application object over its two storages.
pub mod Validate
pub mod Subnets
pub mod Service
pub mod Ticker
mod TickerTests
