-- ===== src/Tests.antt =====
-- Concrete stores, runs of the code on them, and instances of the theorems there.
mod Sample
mod Lifecycles
mod Outboxes
mod Simulations
mod Exports
mod Keys
mod Listings
mod Rates
mod Downloads
mod Courses
mod Creations
mod Files
mod Portals
mod Hooks
