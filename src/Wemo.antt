-- ===== src/Wemo.antt =====
-- The emulation of WeMo devices.
pub mod Templates
pub mod Fauxmo
pub mod Emulator
pub mod Server
pub mod OldEmulator
