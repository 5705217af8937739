-- ===== src/Ir.antt =====
-- The infrared transmitter: its clock, its pulses, and what a receiver makes of them.
pub mod Timer
pub mod Pulse
pub mod Frame
pub mod Decode
