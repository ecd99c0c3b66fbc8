-- ===== src/Config.antt =====
-- The client configuration files that the engine edits (application/client_config).
pub mod Json
pub mod Merge
pub mod Dicts
pub mod Equality
pub mod Intact
pub mod Printed
pub mod Entries
pub mod Backups
pub mod Restoring
