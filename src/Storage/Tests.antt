-- ===== src/Storage/Tests.antt =====
-- Concrete rows, and the theorems of the storage at them.
-- Code: packages/storage/src/m3.ts, packages/storage/src/m5.ts,
-- packages/storage/src/operations.ts.
mod Claims
mod Histories
mod Plans
mod Journals
mod Limits
