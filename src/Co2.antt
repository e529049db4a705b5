-- ===== src/Co2.antt =====
-- main/co2_tracker.c: the window of readings, the rise since arming, and its alarm.
pub mod Tracker
pub mod Window
pub mod Rise
pub mod Lost
mod Examples
