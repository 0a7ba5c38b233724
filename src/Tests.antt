-- ===== src/Tests.antt =====
-- Tests and concrete instances of the theorems.
pub mod Fixtures
pub mod Board
pub mod Log
pub mod Work
pub mod Schedule
pub mod Tokens
pub mod Race
pub mod Threads
pub mod Permissions
pub mod Crash
pub mod Stream
