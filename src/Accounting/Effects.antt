-- ===== src/Accounting/Effects.antt =====
-- What each kind of receipt does to a portfolio, before the closing checks.
-- Code: packages/accounting/src/index.ts (`applyReceipt`).
pub mod Local
pub mod Positions
pub mod Transfers
