-- ===== src/RateLimit.antt =====
-- The rate limit of the payment API: apps/api/src/rate-limit.
pub mod Redis
pub mod Service
pub mod Window
