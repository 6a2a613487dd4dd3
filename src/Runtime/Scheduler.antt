-- ===== src/Runtime/Scheduler.antt =====
-- src/runtime/scheduler.rs: the scheduler of script tasks and asynchronous operations.
pub mod State
pub mod Tick
pub mod Drive
pub mod Sane
pub mod Others
pub mod Kept
pub mod Cancel
pub mod Spawn
pub mod Stall
pub mod Tests
pub mod Families
pub mod Reachable
pub mod Idle
