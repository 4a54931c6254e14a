-- ===== src/Tenants/Team.antt =====
-- apps/tenants/views.py: how an administrator of a tenant takes a member out of the team, and back
-- in.
use kusanya.Base.{
  ℕ, String, Bool, true, false, Option, none, some, List, [], ◌∷◌, ◌&&◌, ◌==◌, if◌then◌else◌,
}
use kusanya.Base.Table.{first, update}
use kusanya.Core.Objects.{tenant_membership}
use kusanya.Audit.Models.{AuditEvent, with_event}
use kusanya.Tenants.Models.{Tenant}
use kusanya.Tenants.Permissions.{TenantMembership, Memberships, has_tenant_role}

-- The memberships, and the audit records of these views.
pub record Team : Type 0 where
  pub memberships : Memberships
  pub audit : List AuditEvent

-- How a view ends: `PermissionDenied`, `Http404`, a refusal, or a change.
pub data TeamAnswer : Type 0 where
  forbidden not_found own_membership changed : TeamAnswer

abbrev pub has_pk : ℕ → TenantMembership → Bool
has_pk i t = t.id == i

-- `get_object_or_404(TenantMembership, pk=pk, tenant=request.tenant)`
abbrev pub is_in_team : ℕ → ℕ → TenantMembership → Bool
is_in_team tenant_id pk t = (t.id == pk) && (t.tenant.id == tenant_id)

-- `membership.save(update_fields=["is_active", ...])`
abbrev pub set_active : Bool → ℕ → List TenantMembership → List TenantMembership
set_active active i rows = update (has_pk i) (λ t. record t { is_active = active }) rows

unfoldable pub save_active : Bool → String → Tenant → ℕ → TenantMembership → Team → Team
save_active active action tenant actor t team = record {
  memberships = record team.memberships {
    of_tenants = set_active active t.id team.memberships.of_tenants;
  };
  audit =
      with_event action (some actor) (some tenant.id) (some (tenant_membership t.id)) team.audit;
}

abbrev pub may_manage : Tenant → ℕ → Team → Bool
may_manage tenant actor team =
    has_tenant_role team.memberships (some actor) (some tenant) ("tenant_admin" ∷ [])

unfoldable pub deactivate_found : Tenant → ℕ → Option TenantMembership → Team → TeamAnswer × Team
deactivate_found tenant actor none team = (not_found, team)
deactivate_found tenant actor (some t) team =
    if t.user == actor
    then (own_membership, team)
    else (changed, save_active false "team_member.deactivated" tenant actor t team)

unfoldable pub team_member_deactivate : Tenant → ℕ → ℕ → Team → TeamAnswer × Team
team_member_deactivate tenant actor pk team =
    if may_manage tenant actor team
    then deactivate_found tenant actor (first (is_in_team tenant.id pk) team.memberships.of_tenants)
        team
    else (forbidden, team)

unfoldable pub activate_found : Tenant → ℕ → Option TenantMembership → Team → TeamAnswer × Team
activate_found tenant actor none team = (not_found, team)
activate_found tenant actor (some t) team =
    (changed, save_active true "team_member.reactivated" tenant actor t team)

unfoldable pub team_member_activate : Tenant → ℕ → ℕ → Team → TeamAnswer × Team
team_member_activate tenant actor pk team =
    if may_manage tenant actor team
    then activate_found tenant actor (first (is_in_team tenant.id pk) team.memberships.of_tenants)
        team
    else (forbidden, team)
