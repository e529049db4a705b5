-- ===== src/Alarm.antt =====
-- main/notifications.c: the tracker that turns evidence into an alarm, and
-- `bus_state_ack_distress` of main/bus_state.c, which calls it.
pub mod Tracker
pub mod Ack
