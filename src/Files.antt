-- ===== src/Files.antt =====
-- apps/api/src/nacha-files/nacha-files.service.ts: the text of a file, its download, and its rows.
pub mod Rendering
pub mod Downloads
pub mod Agreement
pub mod Chosen
pub mod Exports
pub mod Scope
pub mod Statuses
