-- ===== src/Simulator.antt =====
-- The simulator of the API: apps/api/src/admin/admin-simulator.service.ts.
pub mod Scenario
pub mod Runs
pub mod Percentages
pub mod Amounts
pub mod Ends
pub mod Funding
pub mod Provisioning
