-- ===== src/Minute.antt =====
-- The statistics of minute-by-minute meter reads from logs: libs/minute_assert.
pub mod Time
pub mod Parsers
pub mod Cycle
pub mod Collect
