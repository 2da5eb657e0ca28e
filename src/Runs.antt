-- ===== src/Runs.antt =====
-- `RunExecutor`, apps/workbench/orchestration/runner.py: a run from its start to its end.
pub mod Lifecycle
pub mod Outcome
pub mod Cancel
pub mod Judge
pub mod Stages
pub mod Order
