-- ===== src/Tests.antt =====
-- Tests: concrete inputs, and the theorems applied to them.
pub mod Samples
pub mod Access
pub mod Answers
pub mod Files
pub mod Texts
pub mod Entities
pub mod Versions
pub mod Objects
pub mod Queries
pub mod Threads
pub mod Served
pub mod Stored
pub mod Signals
pub mod Running
