-- ===== src/Lifecycle.antt =====
-- The worker's payments/payment-lifecycle.repository.ts: the transactions that move a payment.
pub mod Transition
pub mod Reserving
pub mod Releasing
pub mod Settling
pub mod Returning
pub mod BankEvents
