-- ===== src/Money.antt =====
-- What the operations do to the posted and the available balance of a funding account.
pub mod Releases
pub mod Settlements
pub mod Returns
pub mod Reserving
