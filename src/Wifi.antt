-- ===== src/Wifi.antt =====
-- The choice of a network, and the connection to it, of main/wifi.c.
pub mod Networks
pub mod Station
pub mod Rotation
pub mod Strongest
pub mod Targets
pub mod Lengths
mod Examples
