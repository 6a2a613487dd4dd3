-- ===== src/Host/MapCommands.antt =====
-- src/host.rs: what a mapping command does to the mappings.
