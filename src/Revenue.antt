-- ===== src/Revenue.antt =====
-- apps/revenue
pub mod Models
pub mod Services
