-- ===== src/Core.antt =====
-- src/regtable_core.h and src/regtable_core.c: the register table and the typed path to it.
pub mod Examples
pub mod Types
pub mod Memory
pub mod Dirty
pub mod Float
pub mod Raw
pub mod Table
pub mod Schema
pub mod Text
pub mod Names
pub mod Format
pub mod Json
pub mod Access
