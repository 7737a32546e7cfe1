-- ===== src/Config.antt =====
-- The configuration: internal/config.
pub mod Koanf
pub mod Validate
pub mod Sources
pub mod Defaults
pub mod Flags
pub mod Maps
