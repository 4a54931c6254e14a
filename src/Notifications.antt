-- ===== src/Notifications.antt =====
-- apps/notifications
pub mod Models
pub mod Defaults
pub mod Services
pub mod Total
pub mod Delivery
pub mod Once
