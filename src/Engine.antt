-- ===== src/Engine.antt =====
-- The API's payments/payment-engine.service.ts: the operations that a merchant calls.
pub mod Validating
pub mod Reserving
pub mod Settling
pub mod Returning
