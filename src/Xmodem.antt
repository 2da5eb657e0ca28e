-- ===== src/Xmodem.antt =====
-- The XMODEM sender of module flashing: apps/module_log/xmodem_flash.py.
pub mod Packet
pub mod Line
pub mod Send
