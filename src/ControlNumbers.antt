-- ===== src/ControlNumbers.antt =====
-- apps/control_numbers
pub mod Models
pub mod Services
pub mod Unique
pub mod Fees
