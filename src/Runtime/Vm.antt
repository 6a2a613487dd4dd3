-- ===== src/Runtime/Vm.antt =====
-- src/runtime/vm.rs: the virtual machine.
pub mod State
pub mod Lookups
pub mod Calls
pub mod Step
pub mod Run
pub mod Safety
pub mod Control
pub mod Suspension
pub mod Tests
mod ControlTests
