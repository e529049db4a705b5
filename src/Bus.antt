-- ===== src/Bus.antt =====
-- main/bus_state.c: the state machine of the van, its commands and its polling task.
pub mod Locked
pub mod Transitions
pub mod Commands
pub mod Poll
