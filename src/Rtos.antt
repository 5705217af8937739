-- ===== src/Rtos.antt =====
-- RTOS/futronix-alexa-rtos: the second firmware, for FreeRTOS, as far as it is written. Its parts do
-- not work together yet.
pub mod Send
pub mod Lg
pub mod Futronix
pub mod Identity
pub mod Json
pub mod WifiTask
pub mod Ssl
pub mod MqttTask
pub mod Tasks
pub mod Board
