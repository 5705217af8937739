-- ===== src/Storage.antt =====
-- The database of fixed-length text records on the EEPROM.
pub mod Entry
pub mod Table
pub mod Database
