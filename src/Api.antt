-- ===== src/Api.antt =====
-- The HTTP crate: crates/aircraft_api (its rate limiter is in RateLimit).
pub mod Shutdown
pub mod Cursor
pub mod Problem
pub mod Bearer
pub mod Policed
pub mod Tests
