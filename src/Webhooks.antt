-- ===== src/Webhooks.antt =====
-- apps/webhooks
pub mod Models
pub mod Services
pub mod Signing
pub mod Delivery
pub mod Reach
pub mod Attempts
pub mod Received
