-- ===== src/Domain.antt =====
-- Parts of src/domain beside the ledger.
pub mod Csv
pub mod Review
