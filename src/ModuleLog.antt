-- ===== src/ModuleLog.antt =====
-- The serial channel of a module with its log: apps/module_log.
pub mod Utf8
pub mod Channel
