-- ===== src/Gw10376.antt =====
-- Q/GDW 10376.2 single-68 frames: libs/parser_lib/adapters/adapter_10376/__init__.py.
-- Fields are numbers below 256 where the source has `bytes`; `|` of disjoint bit fields is a sum,
-- and `x & (2 ** k - 1)` is `x % 2 ^ k`.
pub mod Fn
pub mod Fields
pub mod Address
pub mod Frame
