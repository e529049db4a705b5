-- ===== src/Session.antt =====
-- The MQTT session of main/mqtt_client.c: a new connection, and where payloads go.
pub mod Handler
pub mod Reconcile
pub mod Payloads
mod Examples
