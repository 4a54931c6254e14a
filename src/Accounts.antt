-- ===== src/Accounts.antt =====
-- apps/accounts
pub mod Throttle
pub mod Lockout
pub mod Totp
pub mod Window
pub mod Models
pub mod Mfa
pub mod Login
pub mod Entry
pub mod SecondFactor
pub mod BackupCodes
