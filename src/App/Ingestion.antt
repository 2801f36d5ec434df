-- ===== src/App/Ingestion.antt =====
-- `IngestionService` of crates/aircraft_app/src/services/ingestion.rs. The store, the unit of work
-- and the reader are ports: functions of a state `W` of the world, which they may change.
pub mod Types
pub mod Record
pub mod Service
pub mod Tests
