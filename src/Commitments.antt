-- ===== src/Commitments.antt =====
-- Commitments: the hash chain of audit events, Merkle trees over their leaves, and the batches
-- that are published.
-- Code: packages/commitments/src/index.ts.
pub mod Hashing
pub mod Merkle
pub mod Audit
pub mod Batches
pub mod Export
mod Tests
