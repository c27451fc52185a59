-- ===== src/Core.antt =====
-- src/core and src/cache: what the services share.
pub mod MemoryCache
pub mod RateLimiter
pub mod Pagination
mod Tests
