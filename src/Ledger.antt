-- ===== src/Ledger.antt =====
-- apps/ledger
pub mod Models
pub mod Services
