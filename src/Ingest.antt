-- ===== src/Ingest.antt =====
-- The ingestion crate: crates/aircraft_ingest.
pub mod Vocabulary
pub mod Costs
pub mod Prose
pub mod Noted
pub mod Scalars
pub mod Fields
pub mod Names
pub mod Items
pub mod Images
pub mod Stated
pub mod Normalize
pub mod Artifact
pub mod Planephd
mod Tests
