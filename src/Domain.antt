-- ===== src/Domain.antt =====
-- Values of the domain: crates/aircraft_domain.
pub mod Measurement
pub mod Catalog
pub mod Reference
pub mod Confidence
pub mod ProductionYears
pub mod Tests
