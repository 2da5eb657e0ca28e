-- ===== src/Concentrator.antt =====
-- The simulated concentrator: libs/sim_concentrator.
pub mod Scan
pub mod Batch
pub mod PeriodStats
pub mod Responder
pub mod ExpectRules
