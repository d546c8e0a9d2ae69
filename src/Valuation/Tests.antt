-- ===== src/Valuation/Tests.antt =====
-- Concrete checkpoints, and the theorems of the valuation at them.
-- Code: packages/valuation/src/index.ts.
pub mod Items
pub mod Scenario
