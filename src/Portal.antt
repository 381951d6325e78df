-- ===== src/Portal.antt =====
-- The portal: apps/web/lib, of which the rules on who can take part in a simulator run.
pub mod Eligibility
pub mod Runs
