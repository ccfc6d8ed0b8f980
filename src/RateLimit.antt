-- ===== src/RateLimit.antt =====
-- The limits on what one source address may send (src/main.rs): `Window` is `SourceRateState`,
-- `Limiter` is `SourceRateLimiter`, `Pending` is `PendingAuthLimiter`. An `Instant` is its
-- nanoseconds since an origin in the past.
pub mod Window
pub mod Limiter
pub mod Pending
