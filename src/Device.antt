-- ===== src/Device.antt =====
-- The small devices: the Wifi connection and the LED.
pub mod Wifi
pub mod Led
