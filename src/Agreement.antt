-- ===== src/Agreement.antt =====
-- The worker's transactions and the API's engine implement the same transitions.
pub mod Settlement
pub mod Returns
pub mod Requirements
