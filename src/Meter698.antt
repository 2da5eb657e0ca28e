-- ===== src/Meter698.antt =====
-- The DL/T 698.45 adapter: libs/parser_lib/adapters/adapter_698/__init__.py.
pub mod Fcs
pub mod Frame
pub mod Data
