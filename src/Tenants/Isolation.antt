-- ===== src/Tenants/Isolation.antt =====
-- Whose data a request of the portal can reach.
use kusanya.Base.{
  ℕ, String, true, Option, none, some, List, ◌≡◌, refl, sym, arith, inl, inr, Option-cases, ap, ◌∙◌,
}
use kusanya.Base.Table.{first, first-passes}
use kusanya.Tenants.Models.{Tenant}
use kusanya.Tenants.Permissions.{
  Memberships, TenantMembership, is_member, is_among, get_tenant_role, has_tenant_role, served,
  require_tenant_role, resolve_found, resolve_tenant,
}

served_role :
    (m : Memberships) (u : ℕ) (t : TenantMembership) (roles : List String) (view : Tenant)
    → first (is_member u t.tenant.id) m.of_tenants ≡ some t
    → require_tenant_role m roles (some u) (some t.tenant) view ≡ served view
    → is_among t.role roles ≡ true
unfolding require_tenant_role has_tenant_role get_tenant_role
served_role m u t roles view own h = ground (arith, own)

-- A view under `require_tenant_role` is served on the tenant that the middleware resolved only if
-- the user has an active membership of that tenant, with one of the view's roles, and the session
-- named that tenant.
pub require_tenant_role-isolates :
    (m : Memberships) (user chosen : Option ℕ) (roles : List String) (view : Tenant)
    → require_tenant_role m roles user (resolve_tenant m user chosen).tenant view ≡ served view
    → (t : TenantMembership) × (u : ℕ) × ((resolve_tenant m user chosen).tenant ≡ some t.tenant)
      × (user ≡ some u)
      × (chosen ≡ some t.tenant.id)
      × (first (is_member u t.tenant.id) m.of_tenants ≡ some t)
      × (is_among t.role roles ≡ true)
unfolding resolve_tenant resolve_found require_tenant_role
require_tenant_role-isolates m none chosen roles view h = ground arith
require_tenant_role-isolates m (some u) none roles view h = ground arith
require_tenant_role-isolates m (some u) (some i) roles view h =
    elim (Option-cases (first (is_member u i) m.of_tenants)) [
      | inl missing ↦ ground arith
      | inr (t, found) ↦
          let same : t.tenant.id ≡ i =
            ground (arith, first-passes (is_member u i) m.of_tenants t found) in
          let own = ap (λ k. first (is_member u k) m.of_tenants) same ∙ found in
          let tenant : (resolve_found (first (is_member u i) m.of_tenants) i).tenant
              ≡ some t.tenant =
            rw (found) refl in
          (
            t,
            u,
            tenant,
            refl,
            ap (λ k. some k) (sym same),
            own,
            served_role m u t roles view own
                (ap (λ o. require_tenant_role m roles (some u) o view) (sym tenant) ∙ h),
          )
    ]
