-- ===== src/Nacha.antt =====
-- The export of validated payments: apps/worker/src/ach.
pub mod Generator
pub mod Selection
pub mod Submission
pub mod Batches
pub mod Counting
pub mod Ending
pub mod Text
pub mod Records
pub mod Shape
pub mod Made
pub mod Amounts
