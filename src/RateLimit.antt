-- ===== src/RateLimit.antt =====
-- internal/platform/ratelimit: the token bucket, and the bounded limiter over many keys.
pub mod Bucket
pub mod Rate
pub mod Limiter
pub mod Kept
pub mod Bounds
pub mod Keys
mod Tests
