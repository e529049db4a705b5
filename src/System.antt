-- ===== src/System.antt =====
-- The tasks together: what one operation may change, the invariant that they keep, and what
-- holds of every history.
pub mod Frame
pub mod Invariant
pub mod Steps
pub mod AlarmSteps
pub mod History
pub mod Alarms
pub mod Rounds
pub mod Pending
pub mod Watch
pub mod Grace
pub mod Override
pub mod Persistence
pub mod Outcomes
pub mod Forced
mod Examples
