-- ===== src/Dashboard.antt =====
-- The dashboard: apps/api/src/dashboard.
pub mod Volume
pub mod Week
