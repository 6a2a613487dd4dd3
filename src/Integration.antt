-- ===== src/Integration.antt =====
-- src/integration.rs: events, key mappings, options and compiled modules of an editor.
pub mod Globs
pub mod Events
pub mod Keymaps
pub mod Options
pub mod Modules
mod Tests
