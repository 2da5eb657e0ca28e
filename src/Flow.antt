-- ===== src/Flow.antt =====
-- The comparison of an expected flow with what was seen (apps/workbench/orchestration/compare.py).
pub mod Steps
pub mod Compare
pub mod Verdicts
pub mod Greedy
pub mod Order
