-- ===== src/RateLimit.antt =====
-- The request limiter, internal/platform/ratelimit.
mod Tests
pub mod Limiter
pub mod Table
pub mod Forgets
pub mod Rate
pub mod Bound
