-- ===== src/Domain/Measurement.antt =====
-- Exact decimals, units and measured facts: crates/aircraft_domain/src/measurement.rs.
pub mod Decimal
pub mod Vocabulary
pub mod Fact
pub mod Tests
