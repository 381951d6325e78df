-- ===== src/Course.antt =====
-- The course of a payment through the statuses, as the machine that the worker and the API keep to
-- together.
pub mod Machine
pub mod Tables
pub mod Settling
pub mod Returning
pub mod Transitions
pub mod Validating
pub mod Submitting
pub mod Requests
pub mod Histories
