-- ===== src/Ledger.antt =====
-- Balances, totals and the effect of an entry: src/domain/selectors.ts and
-- src/domain/ledger-impact.ts.
pub mod Debt
pub mod Impact
pub mod Totals
pub mod Balance
pub mod Settling
