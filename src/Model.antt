-- ===== src/Model.antt =====
-- The records of the ledger: src/domain/model.ts. Record ids, names, notes and timestamps are
-- texts; amounts are integers (sen). `schemaVersion` has the one value 1 and is left out.
mod Enums
mod Records
mod Money
pub mod Same
pub use Enums.*
pub use Records.*
pub use Money.*
