-- ===== src/Tests.antt =====
-- Tests, and the theorems at concrete inputs.
pub mod Memory
pub mod Schedule
pub mod Seats
pub mod Wire
pub mod House
pub mod Instance
pub mod Load
pub mod Web
pub mod Process
