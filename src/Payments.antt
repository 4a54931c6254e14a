-- ===== src/Payments.antt =====
-- apps/payments
pub mod Models
pub mod Status
pub mod Messages
pub mod Outcome
pub mod Services
pub mod Callbacks
pub mod Refunds
pub mod Requests
pub mod Books
pub mod Fees
pub mod Repeats
pub mod Races
pub mod Duplicates
pub mod Timeouts
pub mod Allocations
pub mod Unresolved
