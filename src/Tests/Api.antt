-- ===== src/Tests/Api.antt =====
-- The theorems about API credentials, roles, teams, customers and encrypted columns at work.
use kusanya.Customers.Services.{refused}
use kusanya.Base.Table.{count}
use kusanya.Tenants.Permissions.{get_tenant_role}
use kusanya.Tenants.Permissions.{has_tenant_role}
use kusanya.Tenants.Permissions.{resolve_found}
use kusanya.Base.{ℕ, ◌==◌, Bool, true, false, none, some, [], ◌∷◌, ◌≡◌, refl, ap, arith, str_eq}
use kusanya.Base.Table.{first, exists, empty}
use kusanya.Base.Text.{every_char, lstrip, rstrip, drop_chars, take_chars, drop_chars-append}
use text.Mathlib.TextLemmas.{length-append}
use Prim.Native.String.{◌++◌, count as char_count}
use Prim.Native.Char.{Char, code}
use kusanya.Core.Result.{ok}
use kusanya.Core.Encrypted.{Fernet, get_prep_value, IsStored, get_prep_value-IsStored}
use kusanya.Tenants.Models.{TenantStatus, is_active_status}
use kusanya.Tenants.Permissions.{
  Memberships, TenantMembership, require_tenant_role, resolve_tenant, is_among, is_member,
}
use kusanya.Tenants.Isolation.{require_tenant_role-isolates}
use kusanya.Api.Credentials.{
  Hasher, ApiCredential, ApiState, new_credential, create_credential, rotate_credential,
  revoke_credential, has_key,
}
use kusanya.Api.Authentication.{
  authenticated, authenticate, has_permission, before_dot, after_dot, token_of, has_dot,
  check_found, check_token,
}
use kusanya.Api.Admitted.{header_of, authenticate-admits, create_credential-admitted}
use kusanya.Api.Revoked.{rotate, serve_calls, revoke_credential-final}
use kusanya.Api.Rotated.{rotate_credential-admitted}
use kusanya.Tenants.Permissions.{get_tenant_role}
use kusanya.Tenants.Team.{Team, team_member_deactivate}
use kusanya.Tenants.Removal.{team_member_deactivate-removes}
use kusanya.Tenants.Administrators.{IsManaged, deactivate, serve_team_all, serve_team_all-IsManaged}
use kusanya.Customers.Models.{Customer}
use kusanya.Customers.Services.{Directory, get_or_create_customer}
use kusanya.Customers.Idempotence.{get_or_create_customer-again}
use kusanya.Tests.Samples.{school}

-- A hasher that keeps the password.
abbrev plain_hasher : Hasher
plain_hasher = record {
  make_password = λ salt raw. raw;
  check_password = λ raw hash. str_eq raw hash;
  check-make = λ salt raw raw'. refl;
}

abbrev is_blank : Char → Bool
is_blank c = code c == 32

abbrev no_credentials : ApiState
no_credentials = record { credentials = empty; status_of = λ i. TenantStatus.active; audit = [] }

abbrev erp : ApiCredential
erp = new_credential plain_hasher school "ERP" none "kusanya_1" "salt" "s3cret" 0

abbrev one_credential : ApiState
one_credential = record no_credentials { credentials = record { next = 1; rows = erp ∷ [] } }

create_credential-admitted_example :
    (authenticate plain_hasher is_blank (header_of plain_hasher is_blank "kusanya_1" "s3cret") 5 (
      create_credential plain_hasher school "ERP" none "kusanya_1" "salt" "s3cret"
        no_credentials)).0
    ≡ authenticated erp
unfolding exists has_dot every_char
create_credential-admitted_example =
    create_credential-admitted plain_hasher is_blank school "ERP" none "kusanya_1" "salt" "s3cret" 5
      no_credentials refl refl refl refl

authenticate-admits_example :
    (first
        (has_key (before_dot (token_of plain_hasher is_blank "Bearer kusanya_1.s3cret")))
        one_credential.credentials.rows
      ≡ some erp)
    × (erp.is_active ≡ true)
    × (str_eq (after_dot (token_of plain_hasher is_blank "Bearer kusanya_1.s3cret")) "s3cret"
        ≡ true)
    × (is_active_status (one_credential.status_of 1) ≡ true)
unfolding authenticate take_chars check_token has_dot rstrip lstrip drop_chars every_char
    check_found first before_dot after_dot
authenticate-admits_example =
    authenticate-admits plain_hasher is_blank "Bearer kusanya_1.s3cret" 5 one_credential erp refl

revoke_credential-final_example :
    has_permission
      (authenticate plain_hasher is_blank "Bearer kusanya_1.new" 9 (
        serve_calls plain_hasher is_blank
          (rotate 0 none "salt" "new" ∷ [])
          (revoke_credential erp none 7 one_credential))).0
    ≡ false
unfolding first before_dot rstrip lstrip drop_chars every_char
revoke_credential-final_example =
    revoke_credential-final plain_hasher is_blank erp none 7 9 (rotate 0 none "salt" "new" ∷ [])
      "Bearer kusanya_1.new" one_credential refl

rotate_credential-admitted_example :
    has_permission
      (authenticate plain_hasher is_blank
        (header_of plain_hasher is_blank "kusanya_1" "s3cret")
        9
        (rotate_credential plain_hasher erp none "salt" "new" one_credential)).0
    ≡ false
unfolding first has_dot every_char
rotate_credential-admitted_example =
    rotate_credential-admitted plain_hasher is_blank erp none "salt" "new" "s3cret" 9 one_credential
      refl refl refl refl refl

-- A cipher that marks the text and keeps it.
abbrev open_fernet : Fernet
open_fernet = record {
  encrypt = λ salt t. "g" ++ t;
  decrypt = λ t. some (drop_chars 1 t);
  decrypt-encrypt = λ salt t. ap (λ x. some x) (drop_chars-append "g" t);
  encrypt-some = λ salt t e. omega (arith, length-append "g" t, ap (λ x. char_count x) e);
}

get_prep_value-IsStored_example :
    IsStored open_fernet 4 (some "Asha") (get_prep_value open_fernet 4 9 (some "Asha"))
get_prep_value-IsStored_example = get_prep_value-IsStored open_fernet 4 9 (some "Asha")

abbrev bursar : TenantMembership
bursar = record { id = 0; tenant = school; user = 7; role = "accountant"; is_active = true }

abbrev memberships : Memberships
memberships = record { of_tenants = bursar ∷ []; of_platform = []; is_superuser = λ u. false }

require_tenant_role-isolates_example :
    (t : TenantMembership) × (u : ℕ) × ((resolve_tenant memberships (some 7) (some 1)).tenant
      ≡ some t.tenant)
    × (some 7 ≡ some u)
    × (some 1 ≡ some t.tenant.id)
    × (first (is_member u t.tenant.id) memberships.of_tenants ≡ some t)
    × (is_among t.role ("accountant" ∷ []) ≡ true)
unfolding require_tenant_role resolve_tenant resolve_found first has_tenant_role get_tenant_role
    is_among
require_tenant_role-isolates_example =
    require_tenant_role-isolates memberships (some 7) (some 1) ("accountant" ∷ []) school refl

abbrev directory : Directory
directory = record { customers = empty; accounts = empty; audit = [] }

get_or_create_customer-again_example :
    (c : Customer) × (created : Bool) × ((get_or_create_customer school "Asha" "ERP-1" "" "" none
        directory).0
      ≡ ok (c, created))
    × (let d = (get_or_create_customer school "Asha" "ERP-1" "" "" none directory).1 in
        get_or_create_customer school "Asha M." "ERP-1" "a@example.com" "" (some 3) d
        ≡ (ok (c, false), d))
unfolding refused
get_or_create_customer-again_example =
    get_or_create_customer-again school "Asha" "Asha M." "ERP-1" "" "a@example.com" "" "" none
      (some 3) directory refl refl

abbrev head : TenantMembership
head = record { id = 1; tenant = school; user = 9; role = "tenant_admin"; is_active = true }

abbrev staff : Team
staff = record { memberships = record memberships { of_tenants = bursar ∷ head ∷ [] }; audit = [] }

serve_team_all-IsManaged_example :
    IsManaged school (serve_team_all school (deactivate 9 0 ∷ deactivate 9 1 ∷ []) staff)
unfolding first exists
serve_team_all-IsManaged_example =
    serve_team_all-IsManaged school (deactivate 9 0 ∷ deactivate 9 1 ∷ []) staff
      ((λ p t h. ground (arith, h)), refl)

team_member_deactivate-removes_example :
    (get_tenant_role (team_member_deactivate school 9 0 staff).1.memberships (some 7) (some school)
      ≡ none)
    × (get_tenant_role
          (team_member_deactivate school 9 0 staff).1.memberships
          (some 9)
          (some school)
        ≡ some "tenant_admin")
unfolding has_tenant_role get_tenant_role first is_among count
team_member_deactivate-removes_example =
    team_member_deactivate-removes school 9 0 head bursar staff refl refl refl refl
      (λ e. ground arith) (λ e. ground arith) (omega arith)
