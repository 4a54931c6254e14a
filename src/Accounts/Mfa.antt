-- ===== src/Accounts/Mfa.antt =====
-- apps/accounts/mfa_services.py. The random texts of new codes are an
-- argument.
use kusanya.Base.{
  ℕ, Bool, true, false, not, Option, none, some, List, [], ◌∷◌, String, ◌==◌, ◌&&◌, str_eq, is_some,
  if◌then◌else◌,
}
use kusanya.Base.Table.{Table, insert, select, update, first, put_rows}
use kusanya.Core.Objects.{mfa_device, backup_code}
use kusanya.Audit.Models.{with_event}
use kusanya.Accounts.Models.{MfaDevice, BackupCode, Factors, is_codes_of, is_device_of}
use kusanya.Accounts.Totp.{
  Checked, accepted, rejected, raises_type_error, CharTests, verify_totp, valid_window,
}

abbrev pub backup_code_count : ℕ
backup_code_count = 10

-- `BackupCode.mark_used`
abbrev pub mark_used : ℕ → BackupCode → BackupCode
mark_used now c = record c { used_at = some now }

-- What is the library's: the HMAC of a time-based code, Unicode's tests, the keyed HMAC of a
-- backup code's normal form, and the match of a code's shape.
pub record Crypto : Type 0 where
  pub hmac_sha1 : String → ℕ → List ℕ
  pub char_tests : CharTests
  pub lookup_hash : String → String
  pub looks_like_backup_code : String → Bool

module _ (crypto : Crypto) where
  -- `verify_totp(secret, code)` at a time
  abbrev pub check_totp : String → String → ℕ → Checked
  check_totp secret code now =
      verify_totp crypto.hmac_sha1 crypto.char_tests secret code valid_window now

  -- `confirm_device`, by how the check of the code ended: whether the device is active now.
  unfoldable pub confirm_device :
      MfaDevice → String → Option ℕ → ℕ → Factors → Option Bool × Factors
  confirm_device device code actor now f = elim (check_totp device.secret code now) [
    | accepted ↦ (
      some true,
      record f {
        devices =
            put_rows f.devices
              (update (λ d. d.id == device.id) (λ d. record d { confirmed = true }) f.devices.rows);
        audit = with_event "mfa.enabled" actor none (some (mfa_device device.id)) f.audit;
      },
    )
    | rejected ↦ (some false, f)
    | raises_type_error ↦ (none, f)
  ]

  -- `bulk_create` of the codes of these texts.
  unfoldable pub create_codes : ℕ → List String → Table BackupCode → Table BackupCode
  create_codes user [] t = t
  create_codes user (raw ∷ raws) t = create_codes user raws (
      insert t (λ id. record {
        id = id;
        user = user;
        lookup_hash = crypto.lookup_hash raw;
        used_at = none;
      }))

  unfoldable pub generate_backup_codes :
      ℕ → List String → Option ℕ → Factors → List String × Factors
  generate_backup_codes user raw_codes actor f = (
    raw_codes,
    record f {
      backup_codes =
          create_codes user raw_codes
            (put_rows f.backup_codes (select (λ c. not (is_codes_of user c)) f.backup_codes.rows));
      audit = with_event "mfa.backup_codes_generated" actor none none f.audit;
    },
  )

  -- The codes that a text may use up.
  abbrev pub is_match : ℕ → String → BackupCode → Bool
  is_match user raw_code c =
      (c.user == user)
      && (str_eq c.lookup_hash (crypto.lookup_hash raw_code) && not (is_some c.used_at))

  unfoldable pub use_found : Option BackupCode → ℕ → ℕ → Factors → Bool × Factors
  use_found none user now f = (false, f)
  use_found (some backup) user now f = (
    true,
    record f {
      backup_codes =
          put_rows f.backup_codes
            (update (λ c. c.id == backup.id) (mark_used now) f.backup_codes.rows);
      audit =
          with_event "mfa.backup_code_used" (some user) none (some (backup_code backup.id)) f.audit;
    },
  )

  unfoldable pub consume_backup_code : ℕ → String → ℕ → Factors → Bool × Factors
  consume_backup_code user raw_code now f =
      if str_eq raw_code ""
      then (false, f)
      else if not (crypto.looks_like_backup_code raw_code)
      then (false, f)
      else use_found (first (is_match user raw_code) f.backup_codes.rows) user now f

unfoldable pub disable_mfa : ℕ → Option ℕ → Factors → Factors
disable_mfa user actor f = record {
  devices = put_rows f.devices (select (λ d. not (is_device_of user d)) f.devices.rows);
  backup_codes =
      put_rows f.backup_codes (select (λ c. not (is_codes_of user c)) f.backup_codes.rows);
  audit = with_event "mfa.disabled" actor none none f.audit;
}
