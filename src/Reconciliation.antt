-- ===== src/Reconciliation.antt =====
-- apps/reconciliation
pub mod Models
pub mod Services
pub mod Checks
