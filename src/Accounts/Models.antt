-- ===== src/Accounts/Models.antt =====
-- apps/accounts/models.py. The keyed HMAC of a backup code is the library's and a parameter of the
-- services. Secrets are texts.
use kusanya.Base.{ℕ, String, Bool, Option, ◌==◌, ◌&&◌, List}
use kusanya.Base.Table.{Table}
use kusanya.Audit.Models.{AuditEvent}

pub record MfaDevice : Type 0 where
  pub id : ℕ
  pub user : ℕ
  pub secret : String
  pub confirmed : Bool
  pub last_used_at : Option ℕ

pub record BackupCode : Type 0 where
  pub id : ℕ
  pub user : ℕ
  pub lookup_hash : String
  pub used_at : Option ℕ

-- The tables of the second factor, and the audit records of its services.
pub record Factors : Type 0 where
  pub devices : Table MfaDevice
  pub backup_codes : Table BackupCode
  pub audit : List AuditEvent

abbrev pub is_codes_of : ℕ → BackupCode → Bool
is_codes_of user c = c.user == user

abbrev pub is_device_of : ℕ → MfaDevice → Bool
is_device_of user d = d.user == user

-- `filter(user=user, confirmed=True)`
abbrev pub is_active_device_of : ℕ → MfaDevice → Bool
is_active_device_of user d = (d.user == user) && d.confirmed
