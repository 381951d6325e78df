-- ===== src/Webhooks.antt =====
-- The delivery of events to the endpoints of merchants: apps/worker/src/webhooks.
pub mod Materializer
pub mod Processor
pub mod Once
pub mod Outcomes
pub mod Endpoints
pub mod Testing
pub mod References
pub mod Delivering
pub mod Hooks
