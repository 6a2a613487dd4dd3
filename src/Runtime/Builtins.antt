-- ===== src/Runtime/Builtins.antt =====
-- src/runtime/builtins.rs: the builtin functions and their registry.
pub mod Display
pub mod Numbers
pub mod Collections
pub mod Strings
pub mod Registry
pub mod Returns
pub mod Defaults
pub mod Platform
pub mod Sorting
pub mod Splitting
pub mod Getting
pub mod Extrema
pub mod Ranges
mod Tests
