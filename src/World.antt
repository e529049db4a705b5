-- ===== src/World.antt =====
-- The state that the tasks share: the file-scope variables of main/bus_state.c and
-- main/notifications.c, the globals of main/main.c (telemetry, distress queue), the roster of
-- main/beacon_config.c, and what was published over MQTT.
mod Constants
mod State
mod Publish
pub use Constants.*
unfoldable pub use State.*
unfoldable pub use Publish.*
