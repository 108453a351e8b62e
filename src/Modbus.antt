-- ===== src/Modbus.antt =====
-- src/regtable_modbus.h and src/regtable_modbus.c: the Modbus slave adapter, RTU and TCP.
pub mod Crc
pub mod Map
pub mod Words
pub mod Pdu
pub mod Frame
mod Examples
