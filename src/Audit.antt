-- ===== src/Audit.antt =====
-- apps/audit
pub mod Models
pub mod Chain
pub mod Verified
pub mod Tampering
