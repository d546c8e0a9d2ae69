-- ===== src/Transfers.antt =====
-- The life cycle of a cross-chain transfer, and the receipts that the accounting is sent for it.
-- Code: packages/transfers/src/index.ts.
pub mod State
pub mod Evidence
pub mod Lifecycle
pub mod Table
pub mod Invariant
pub mod Replay
pub mod Receipts
pub mod Agreement
pub mod Tests
