-- ===== src/Evaluation/Tests.antt =====
-- Concrete evaluations, and the theorems of the evaluation at them.
-- Code: packages/evaluation/src/index.ts.
mod Eligible
mod Marks
mod Replays
