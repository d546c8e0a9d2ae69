-- ===== src/Storage.antt =====
-- The rows that the database keeps, and the transactions on them as functions.
-- Code: packages/storage/src/m3.ts, packages/storage/src/m5.ts,
-- packages/storage/src/operations.ts.
pub mod Queue
pub mod Repository
pub mod Actions
pub mod Journal
pub mod Requests
mod Tests
