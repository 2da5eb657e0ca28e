-- ===== src/Meter645.antt =====
-- DL/T 645-2007 meter frames, libs/parser_lib/adapters/adapter_645/__init__.py: escaping, the two
-- frame builders, extraction from a stream, the structural check and the sniffing score.
-- `bytes([...])` raises `ValueError` above 255, which is `none` here; a score is in tenths.
pub mod Escape
pub mod Build
pub mod Extract
