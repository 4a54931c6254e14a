-- ===== src/Core.antt =====
-- apps/core: results of calls that may raise, generic foreign keys, money, the cache and the rate
-- limiter over it, and encrypted columns.
pub mod Result
pub mod Objects
pub mod Money
pub mod Signing
pub mod Tasks
pub mod Encrypted
pub mod Cache
pub mod RateLimit
