-- ===== src/App.antt =====
-- The application crate: crates/aircraft_app.
pub mod Pagination
pub mod Persistence
pub mod Auth
pub mod Ingestion
