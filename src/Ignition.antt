-- ===== src/Ignition.antt =====
-- The two ignition sources of main/ignition.h, and the remote of ignition_remote/main/main.c.
pub mod Wire
pub mod Remote
pub mod Espnow
pub mod Heartbeats
pub mod Gpio
pub mod Debounce
mod Examples
