-- ===== src/Command.antt =====
-- bus/command: `handle_command` of main/mqtt_client.c.
pub mod Handler
pub mod Guard
pub mod Bare
pub mod Keeps
pub mod Trim
mod Examples
