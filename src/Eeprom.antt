-- ===== src/Eeprom.antt =====
-- The EEPROM: the library's device, and the interface to it.
pub mod Api
pub mod Interface
pub mod Reads
pub mod Writes
