-- ===== src/Signals.antt =====
-- The rules of a signal's levels, eligibility, validity and outcome, and the excursions of its trade.
pub mod Excursion
pub mod Overlays
pub mod Calendar
mod Examples
pub mod Outcomes
pub mod Levels
