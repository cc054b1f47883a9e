-- ===== src/RateLimiter.antt =====
-- pkg/redirect/rate_limiter.go: the token buckets of the client addresses.
pub mod Deps
pub mod Limits
pub mod Clients
pub mod State
pub mod Oldest
pub mod Bounds
pub mod Requests
pub mod Precedence
pub mod History
mod Tests
