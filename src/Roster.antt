-- ===== src/Roster.antt =====
-- main/beacon_config.c: the roster of beacons.
pub mod Near
pub mod Fields
pub mod Json
pub mod Document
pub mod Entry
pub mod Add
pub mod Change
pub mod Config
pub mod Load
pub mod Distinct
pub mod Found
pub mod Valid
pub mod Identities
pub mod Adding
pub mod Editing
pub mod Keeps
pub mod Saving
pub mod Undo
pub mod Requests
pub mod Reports
pub mod Faults
pub mod Rejected
pub mod Loading
pub mod Hex
pub mod Readback
pub mod Reload
pub mod Boot
pub mod Trees
pub mod Samples
mod Examples
mod LoadExamples
