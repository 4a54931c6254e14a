-- ===== src/Api/Credentials.antt =====
-- apps/api/models.py and apps/api/credential_services.py. Django's password hasher is a parameter
-- with what its documentation promises; the random key, secret and salt of a new credential are
-- arguments.
use kusanya.Base.{
  ℕ, String, Bool, true, false, Option, none, some, ◌==◌, ◌≡◌, List, if◌then◌else◌, str_eq,
}
use kusanya.Base.Table.{Table, exists, insert, update, put_rows}
use kusanya.Core.Objects.{api_credential}
use kusanya.Audit.Models.{AuditEvent, with_event}
use kusanya.Tenants.Models.{Tenant, TenantStatus}

-- `make_password` with a salt, and `check_password`: a hash accepts its own password alone.
pub record Hasher : Type 0 where
  pub make_password : String → String → String
  pub check_password : String → String → Bool
  pub check-make :
      (salt raw raw' : String) → check_password raw' (make_password salt raw) ≡ str_eq raw' raw

pub record ApiCredential : Type 0 where
  pub id : ℕ
  pub tenant : Tenant
  pub key_id : String
  pub secret_hash : String
  pub name : String
  pub is_active : Bool
  pub created_by : Option ℕ
  pub last_used_at : Option ℕ
  pub revoked_at : Option ℕ

-- The credentials, the audit records, and the status of each tenant by its primary key.
pub record ApiState : Type 0 where
  pub credentials : Table ApiCredential
  pub status_of : ℕ → TenantStatus
  pub audit : List AuditEvent

abbrev pub has_key : String → ApiCredential → Bool
has_key key_id c = str_eq c.key_id key_id

abbrev pub has_pk : ℕ → ApiCredential → Bool
has_pk i c = c.id == i

-- `credential.save(update_fields=...)`, of the fields that the function sets.
abbrev pub save_fields : ℕ → (ApiCredential → ApiCredential) → ApiState → ApiState
save_fields i f s = record s {
  credentials = put_rows s.credentials (update (has_pk i) f s.credentials.rows);
}

abbrev pub audited : String → ApiCredential → Option ℕ → ApiState → ApiState
audited action credential actor s = record s {
  audit =
      with_event action actor (some credential.tenant.id) (some (api_credential credential.id))
        s.audit;
}

module _ (hasher : Hasher) where
  abbrev pub new_credential :
      Tenant → String → Option ℕ → String → String → String → ℕ → ApiCredential
  new_credential tenant name actor key_id salt raw_secret id = record {
    id = id;
    tenant = tenant;
    key_id = key_id;
    secret_hash = hasher.make_password salt raw_secret;
    name = name;
    is_active = true;
    created_by = actor;
    last_used_at = none;
    revoked_at = none;
  }

  -- The new credential's key is `key_id`, and `raw_secret` is shown once. Keys are unique: the
  -- database refuses a second row with one.
  unfoldable pub create_credential :
      Tenant → String → Option ℕ → String → String → String → ApiState → ApiState
  create_credential tenant name actor key_id salt raw_secret s =
      if exists (has_key key_id) s.credentials.rows then s else record s {
        credentials =
            insert s.credentials (new_credential tenant name actor key_id salt raw_secret);
        audit =
            with_event "api_credential.created" actor (some tenant.id)
              (some (api_credential s.credentials.next)) s.audit;
      }

  unfoldable pub rotate_credential :
      ApiCredential → Option ℕ → String → String → ApiState → ApiState
  rotate_credential credential actor salt raw_secret s =
      audited "api_credential.rotated" credential actor (
        save_fields credential.id
          (λ c. record c { secret_hash = hasher.make_password salt raw_secret }) s)

unfoldable pub revoke_credential : ApiCredential → Option ℕ → ℕ → ApiState → ApiState
revoke_credential credential actor now s =
    audited "api_credential.revoked" credential actor
      (save_fields credential.id (λ c. record c { is_active = false; revoked_at = some now }) s)

-- `ApiCredential.mark_used`
unfoldable pub mark_used : ApiCredential → ℕ → ApiState → ApiState
mark_used credential now s = save_fields credential.id (λ c. record c { last_used_at = some now }) s
