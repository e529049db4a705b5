-- ===== src/Sensors.antt =====
-- The CO2 sensor on the I2C bus: main/sensor_scd4x.c, and the checksum of main/util.h.
pub mod Crc
pub mod Scd4x
