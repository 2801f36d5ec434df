-- ===== src/RateLimit.antt =====
-- The per-principal rate limiter of crates/aircraft_api/src/rate_limit.rs.
pub mod Quota
pub mod Policy
pub mod Bucket
pub mod Limiter
pub mod Invariant
pub mod Lookup
pub mod History
pub mod Bound
pub mod Retry
pub mod Eviction
pub mod Saturation
mod Tests
