-- ===== src/Tenants.antt =====
-- apps/tenants
pub mod Models
pub mod Permissions
pub mod Isolation
pub mod Team
pub mod Removal
pub mod Administrators
