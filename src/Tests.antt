-- ===== src/Tests.antt =====
-- Samples, and the theorems at work on them.
pub mod Samples
mod Payments
mod Services
mod Bills
mod MemoryCache
mod Delivery
mod Accounts
mod Audit
mod Api
