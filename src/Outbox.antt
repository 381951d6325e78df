-- ===== src/Outbox.antt =====
-- The outbox of the worker: apps/worker/src/outbox.
pub mod Repository
pub mod Rows
pub mod Sorting
pub mod Queue
pub mod Bounds
pub mod Attempts
pub mod Retries
pub mod Handler
pub mod Polling
pub mod Progress
