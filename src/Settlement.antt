-- ===== src/Settlement.antt =====
-- apps/settlement
pub mod Models
pub mod Services
pub mod Claims
