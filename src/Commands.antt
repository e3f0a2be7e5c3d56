-- ===== src/Commands.antt =====
-- The commands of the ledger and their schema: src/domain/commands.ts.
mod Types
pub mod Dependencies
pub mod Keys
pub mod Schema
pub use Types.*
