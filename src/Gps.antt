-- ===== src/Gps.antt =====
-- The GPS receiver of main/sensor_gps.c: NMEA sentences out of the bytes of its UART.
pub mod Text
pub mod Checksum
pub mod Sentences
pub mod Receiver
pub mod Framing
pub mod Fixes
pub mod Tokens
pub mod Checked
pub mod Empty
mod Examples
