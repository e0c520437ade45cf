-- ===== src/Util.antt =====
-- Utilities of pxbee/pan/util.
pub mod Bytes
pub mod Crc16
