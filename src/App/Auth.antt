-- ===== src/App/Auth.antt =====
-- The credential services: crates/aircraft_app/src/services/{authentication,credential_issuance}.rs.
pub mod Tests
pub mod Issuance
pub mod Authentication
pub mod Redaction
pub mod Scope
pub mod Credential
