-- ===== src/Merchants.antt =====
-- Merchants and their keys: apps/api/src/auth, and apps/api/src/admin/admin-merchants.service.ts.
pub mod Authentication
pub mod Administration
pub mod Keyed
pub mod Rotation
pub mod Creation
pub mod Upkeep
pub mod Bearer
pub mod Details
pub mod Balances
