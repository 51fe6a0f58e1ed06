-- ===== src/Broker.antt =====
-- The paper broker and the live feed (backend/app/broker).
pub mod HotSet
pub mod LiveLevels
pub mod Worker
pub mod OutcomeRecorder
pub mod Sessions
pub mod Examples
pub mod Aggregator
pub mod Monitor
pub mod Paper
pub mod Book
pub mod Sizing
pub mod Fill
pub mod Depth
