-- ===== src/Signals.antt =====
-- The price signals of backend/src/signals: the market-status rule and calendar, the adapters of the
-- sources, the fusion of readings and the router that chooses between them.
pub mod Status
pub mod Calendar
pub mod Fusion
pub mod Adapters
pub mod Router
mod Examples
