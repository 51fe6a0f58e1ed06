-- ===== src/Broker/Worker.antt =====
-- The live worker (backend/app/broker/live_worker.py): its threads and what they share.
mod Examples
pub mod Queues
pub mod Ltp
pub mod Latency
pub mod Writer
