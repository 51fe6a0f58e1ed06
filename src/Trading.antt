-- ===== src/Trading.antt =====
-- The pure trading rules (backend/app/trading).
mod Examples
pub mod PositionHealth
pub mod Atr
pub mod TrailSl
pub mod Fees
pub mod MarketHours
pub mod CircuitBreaker
pub mod ProfitLock
