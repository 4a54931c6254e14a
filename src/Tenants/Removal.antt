-- ===== src/Tenants/Removal.antt =====
-- What taking a member out of a team takes away.
use kusanya.Base.{ℕ, true, false, none, some, ◌==◌, ◌≤◌, ◌≡◌, ◌≢◌, refl, arith}
use kusanya.Base.Table.{first, count, update, first-none, first-update_other, count-update_lt}
use kusanya.Tenants.Models.{Tenant}
use kusanya.Tenants.Permissions.{TenantMembership, is_member, get_tenant_role}
use kusanya.Tenants.Team.{
  Team, has_pk, is_in_team, may_manage, save_active, deactivate_found, team_member_deactivate,
}

-- An administrator with a membership of its own takes another member out whose only active
-- membership of the tenant this is, another than the administrator's: the member has no role in the tenant any more, and the
-- administrator keeps its own.
pub team_member_deactivate-removes :
    (tenant : Tenant) (actor pk : ℕ) (own t : TenantMembership) (team : Team)
    → may_manage tenant actor team ≡ true
    → first (is_member actor tenant.id) team.memberships.of_tenants ≡ some own
    → first (is_in_team tenant.id pk) team.memberships.of_tenants ≡ some t
    → first (is_member t.user tenant.id) team.memberships.of_tenants ≡ some t
    → own.id ≢ t.id
    → t.user ≢ actor
    → count (is_member t.user tenant.id) team.memberships.of_tenants ≤ 1
    → (get_tenant_role
          (team_member_deactivate tenant actor pk team).1.memberships
          (some t.user)
          (some tenant)
        ≡ none)
      × (get_tenant_role
            (team_member_deactivate tenant actor pk team).1.memberships
            (some actor)
            (some tenant)
          ≡ some own.role)
unfolding team_member_deactivate deactivate_found save_active get_tenant_role
team_member_deactivate-removes tenant actor pk own t team admin mine found theirs apart other
      single =
    let rows = team.memberships.of_tenants in
    let off : TenantMembership → TenantMembership = λ x. record x { is_active = false } in
    let not_actor : (t.user == actor) ≡ false = ground arith in
    let not_own : has_pk t.id own ≡ false = ground arith in
    let fewer =
      count-update_lt (is_member t.user tenant.id) (has_pk t.id) off rows t theirs (ground arith)
        (λ y. ground arith) in
    let gone =
      first-none (is_member t.user tenant.id) (update (has_pk t.id) off rows)
        (omega (arith, fewer)) in
    let kept =
      first-update_other (has_pk t.id) (is_member actor tenant.id) off rows own
        (λ y e. ground arith) not_own (λ y e. ground arith) mine in
    rw (admin, found, not_actor, gone, kept) (refl, refl)
