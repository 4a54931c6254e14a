-- ===== src/Providers.antt =====
-- apps/providers
pub mod Models
pub mod Interface
pub mod Mock
