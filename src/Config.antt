-- ===== src/Config.antt =====
-- The configuration crate: crates/aircraft_config.
pub mod Settings
