-- ===== src/Customers.antt =====
-- apps/customers
pub mod Models
pub mod Services
pub mod Idempotence
