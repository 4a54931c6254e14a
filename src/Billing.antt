-- ===== src/Billing.antt =====
-- apps/billing
pub mod Models
pub mod Account
pub mod Services
pub mod Idempotence
pub mod Totals
