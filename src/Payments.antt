-- ===== src/Payments.antt =====
-- The payments of the API: apps/api/src/payments.
pub mod Requests
pub mod Creation
pub mod Adding
pub mod Access
pub mod Idempotency
pub mod Sparing
pub mod Isolation
pub mod Listing
pub mod Listed
