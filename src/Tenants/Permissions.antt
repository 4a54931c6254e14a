-- ===== src/Tenants/Permissions.antt =====
-- apps/tenants/permissions.py and apps/tenants/middleware.py, with the platform roles of
-- apps/users/models.py. Roles are their texts; a request's user is a primary key, or nobody.
use kusanya.Base.{
  ℕ, String, Bool, true, false, Option, none, some, List, [], ◌∷◌, ◌&&◌, ◌||◌, ◌==◌, str_eq,
  if◌then◌else◌,
}
use kusanya.Base.Table.{first, exists}
use kusanya.Tenants.Models.{Tenant}

pub record TenantMembership : Type 0 where
  pub id : ℕ
  pub tenant : Tenant
  pub user : ℕ
  pub role : String
  pub is_active : Bool

pub record PlatformMembership : Type 0 where
  pub id : ℕ
  pub user : ℕ
  pub role : String
  pub is_active : Bool

pub record Memberships : Type 0 where
  pub of_tenants : List TenantMembership
  pub of_platform : List PlatformMembership
  pub is_superuser : ℕ → Bool

-- `role in roles`
unfoldable pub is_among : String → List String → Bool
is_among role [] = false
is_among role (r ∷ roles) = str_eq role r || is_among role roles

-- `has_platform_role`, with the roles of `user_platform_roles`
unfoldable pub has_platform_role : Memberships → Option ℕ → List String → Bool
has_platform_role m none roles = false
has_platform_role m (some u) roles =
    if m.is_superuser u
    then true
    else exists (λ p. (p.user == u) && (p.is_active && is_among p.role roles)) m.of_platform

abbrev pub is_member : ℕ → ℕ → TenantMembership → Bool
is_member u tenant_id t = (t.user == u) && ((t.tenant.id == tenant_id) && t.is_active)

abbrev role_of : Option TenantMembership → Option String
role_of none = none
role_of (some t) = some t.role

unfoldable pub get_tenant_role : Memberships → Option ℕ → Option Tenant → Option String
get_tenant_role m none tenant = none
get_tenant_role m (some u) none = none
get_tenant_role m (some u) (some tenant) = role_of (first (is_member u tenant.id) m.of_tenants)

abbrev role_is_among : Option String → List String → Bool
role_is_among none roles = false
role_is_among (some role) roles = is_among role roles

unfoldable pub has_tenant_role : Memberships → Option ℕ → Option Tenant → List String → Bool
has_tenant_role m user tenant roles = role_is_among (get_tenant_role m user tenant) roles

-- A view's answer, or `PermissionDenied`.
pub data Guarded {ℓ} (A : Type ℓ) : Type ℓ where
  permission_denied : Guarded A
  served : A → Guarded A

unfoldable pub require_platform_role {ℓ} :
    {A : Type ℓ} → Memberships → List String → Option ℕ → A → Guarded A
require_platform_role m roles user view =
    if has_platform_role m user roles then served view else permission_denied

unfoldable pub require_tenant_role {ℓ} :
    {A : Type ℓ} → Memberships → List String → Option ℕ → Option Tenant → A → Guarded A
require_tenant_role m roles user none view = permission_denied
require_tenant_role m roles user (some tenant) view =
    if has_tenant_role m user (some tenant) roles then served view else permission_denied

-- What `TenantResolutionMiddleware` sets: the request's tenant and membership, and the session's
-- `active_tenant_id`.
pub record Resolved : Type 0 where
  pub tenant : Option Tenant
  pub membership : Option TenantMembership
  pub active_tenant_id : Option ℕ

abbrev pub unresolved : Option ℕ → Resolved
unresolved chosen = record { tenant = none; membership = none; active_tenant_id = chosen }

unfoldable pub resolve_found : Option TenantMembership → ℕ → Resolved
resolve_found none chosen = unresolved none
resolve_found (some t) chosen = record {
  tenant = some t.tenant;
  membership = some t;
  active_tenant_id = some chosen;
}

unfoldable pub resolve_tenant : Memberships → Option ℕ → Option ℕ → Resolved
resolve_tenant m none chosen = unresolved chosen
resolve_tenant m (some u) none = unresolved none
resolve_tenant m (some u) (some chosen) =
    resolve_found (first (is_member u chosen) m.of_tenants) chosen
