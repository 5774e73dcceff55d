-- ===== src/RateLimiter.antt =====
-- components/ratelimiter: the policies, the store, the two bucket algorithms and the middleware.
pub mod Policy
pub mod Bucket
pub mod Store
pub mod Service
pub mod Floats
pub mod Keys
pub mod Steps
pub mod Entries
pub mod Traffic
pub mod Throughput
pub mod Retry
pub mod Reports
pub mod Duality
pub mod Middleware
mod Tests
