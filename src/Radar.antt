-- ===== src/Radar.antt =====
-- main/sensor_ld2412.c: the byte parser of the radar, its frames, and the presence trigger.
pub mod Parser
pub mod Bounds
pub mod Payload
pub mod Frames
pub mod Presence
pub mod Dwell
pub mod Gaps
pub mod History
pub mod Stays
pub mod Fires
pub mod Task
mod Examples
