-- ===== src/History.antt =====
-- Histories of the store: the transactions of the worker and of the API in any order.
pub mod Order
pub mod Upkeep
pub mod Steps
