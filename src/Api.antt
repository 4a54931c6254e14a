-- ===== src/Api.antt =====
-- apps/api
pub mod Credentials
pub mod Authentication
pub mod Admitted
pub mod Revoked
pub mod Rotated
