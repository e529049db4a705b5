-- ===== src/Mqtt.antt =====
-- main/mqtt_client.c: what the firmware publishes, and the commands that it accepts.
pub mod Report
