-- ===== src/Receipts.antt =====
-- apps/receipts
pub mod Models
pub mod Services
