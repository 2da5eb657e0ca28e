-- ===== src/Automation.antt =====
-- The evidence of a run and the states that it may pass through: libs/test_automation.
pub mod Evidence
pub mod Transitions
