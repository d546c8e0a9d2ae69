-- ===== src/Accounting/Tests.antt =====
-- Concrete portfolios and receipts, and the theorems of the accounting at them.
-- Code: packages/accounting/src/index.ts.
pub mod Start
mod Burn
mod Receipts
mod Replays
pub mod Values
mod Numbers
