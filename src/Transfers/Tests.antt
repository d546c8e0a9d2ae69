-- ===== src/Transfers/Tests.antt =====
-- A concrete transfer and its events, and the theorems of the life cycle at them.
-- Code: packages/transfers/src/index.ts.
pub mod Events
mod Runs
mod Receivables
mod Amounts
