-- ===== src/Schema.antt =====
-- The tables of apps/api/prisma/schema.prisma as rows and a store, and the transactions on it.
mod Enums
mod Rows
mod Store
mod Tables
pub mod Ids
pub mod Keeping
pub mod Actions
unfoldable pub use Enums.*
unfoldable pub use Rows.*
unfoldable pub use Store.*
unfoldable pub use Tables.*
