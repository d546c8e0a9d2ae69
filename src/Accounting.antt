-- ===== src/Accounting.antt =====
-- The accounting of shadow portfolios.
-- Code: packages/accounting/src/index.ts.
pub mod State
pub mod Receipt
pub mod Amounts
pub mod Books
pub mod Effects
pub mod Check
pub mod Apply
pub mod Create
pub mod Replay
pub mod Value
pub mod Conservation
pub mod Tests
