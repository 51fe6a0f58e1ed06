-- ===== src/Backtest.antt =====
-- The backtest (backend/app/backtest).
mod Examples
pub mod Engine
