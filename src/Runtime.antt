-- ===== src/Runtime.antt =====
-- src/runtime: values, errors, the virtual machine, the builtin functions and the task scheduler.
pub mod Value
pub mod Error
pub mod Arithmetic
pub mod Vm
pub mod Builtins
pub mod Scheduler
