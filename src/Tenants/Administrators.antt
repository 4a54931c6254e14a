-- ===== src/Tenants/Administrators.antt =====
-- A tenant keeps an administrator.
use kusanya.Base.{
  ℕ, Bool, true, false, some, List, [], ◌∷◌, ◌&&◌, ◌==◌, ◌≡◌, ◌≢◌, refl, subst, sym, ap, ◌∙◌, arith,
  Bool-cases, Option-cases, inl, inr, if◌then◌else◌, str_eq,
}
use kusanya.Base.Table.{
  first, exists, touched, first-passes, first-update, first-updated, first-update_other,
  exists-of_first, exists-update,
}
use kusanya.Tenants.Models.{Tenant}
use kusanya.Tenants.Permissions.{
  TenantMembership, is_member, is_among, get_tenant_role, has_tenant_role,
}
use kusanya.Tenants.Team.{
  Team, has_pk, is_in_team, set_active, may_manage, save_active, deactivate_found,
  team_member_deactivate, activate_found, team_member_activate,
}

-- Primary keys are unique: a row that any search finds is found by its key.
abbrev pub IsKeyed : List TenantMembership → Type 0
IsKeyed rows =
    (p : TenantMembership → Bool) (t : TenantMembership)
    → first p rows ≡ some t
    → first (has_pk t.id) rows ≡ some t

abbrev pub is_admin : ℕ → TenantMembership → Bool
is_admin tenant_id t = (t.tenant.id == tenant_id) && (t.is_active && str_eq t.role "tenant_admin")

set_active-IsKeyed :
    (active : Bool) (i : ℕ) (rows : List TenantMembership)
    → IsKeyed rows
    → IsKeyed (set_active active i rows)
set_active-IsKeyed active i rows keyed p t h =
    let f : TenantMembership → TenantMembership = λ x. record x { is_active = active } in
    let p' : TenantMembership → Bool = λ x. p (if has_pk i x then f x else x) in
    let before = sym (first-updated (has_pk i) p f rows) ∙ h in
    elim (Option-cases (first p' rows)) [
      | inl missing ↦ ground (arith, sym (ap (touched (has_pk i) f) missing) ∙ before)
      | inr (x, found) ↦
          let row = sym (ap (touched (has_pk i) f) found) ∙ before in
          let same : x.id ≡ t.id = ground (arith, row) in
          subst (λ k. first (has_pk k) (set_active active i rows) ≡ some t) same
            (first-update (has_pk i) (has_pk x.id) f rows (λ y. refl)
              ∙ ap (touched (has_pk i) f) (keyed p' x found)
              ∙ row)
    ]

acting_admin :
    (tenant : Tenant) (actor : ℕ) (team : Team)
    → may_manage tenant actor team ≡ true
    → (own : TenantMembership) × (first (is_member actor tenant.id) team.memberships.of_tenants
        ≡ some own)
      × (is_admin tenant.id own ≡ true)
unfolding has_tenant_role get_tenant_role is_among
acting_admin tenant actor team h =
    elim (Option-cases (first (is_member actor tenant.id) team.memberships.of_tenants)) [
      | inl missing ↦ ground arith
      | inr (own, found) ↦ (
        own,
        found,
        ground
            (arith, first-passes (is_member actor tenant.id) team.memberships.of_tenants own found),
      )
    ]

deactivated-exists :
    (tenant : Tenant) (actor : ℕ) (t own : TenantMembership) (p : TenantMembership → Bool)
    (rows : List TenantMembership)
    → IsKeyed rows
    → first (is_member actor tenant.id) rows ≡ some own
    → is_admin tenant.id own ≡ true
    → first p rows ≡ some t
    → t.user ≢ actor
    → exists (is_admin tenant.id) (set_active false t.id rows) ≡ true
deactivated-exists tenant actor t own p rows keyed mine admin found other =
    exists-of_first (is_admin tenant.id) (is_member actor tenant.id) (set_active false t.id rows)
      own
      (first-update_other (has_pk t.id) (is_member actor tenant.id)
        (λ x. record x { is_active = false }) rows own (λ y e. ground arith) apart
        (λ y e. ground arith) mine)
      admin
  where
    same_user : own.id ≡ t.id → t.user ≡ actor
    same_user e =
        let row : some own ≡ some t =
          sym (keyed (is_member actor tenant.id) own mine)
          ∙ ap (λ k. first (has_pk k) rows) e
          ∙ keyed p t found in
        ground (arith, row, first-passes (is_member actor tenant.id) rows own mine)

    apart : has_pk t.id own ≡ false
    apart = ground (arith, other, same_user)

-- The requests of the team's page: who acts, on which membership, and to take out or back in.
pub data TeamRequest : Type 0 where
  deactivate activate : ℕ → ℕ → TeamRequest

abbrev pub serve_team : Tenant → TeamRequest → Team → Team
serve_team tenant (deactivate actor pk) team = (team_member_deactivate tenant actor pk team).1
serve_team tenant (activate actor pk) team = (team_member_activate tenant actor pk team).1

unfoldable pub serve_team_all : Tenant → List TeamRequest → Team → Team
serve_team_all tenant [] team = team
serve_team_all tenant (r ∷ rs) team = serve_team_all tenant rs (serve_team tenant r team)

-- Keys are unique, and the tenant has an administrator who is active.
abbrev pub IsManaged : Tenant → Team → Type 0
IsManaged tenant team =
    IsKeyed team.memberships.of_tenants
    × (exists (is_admin tenant.id) team.memberships.of_tenants ≡ true)

deactivate-IsManaged :
    (tenant : Tenant) (actor pk : ℕ) (team : Team)
    → IsManaged tenant team
    → IsManaged tenant (team_member_deactivate tenant actor pk team).1
unfolding team_member_deactivate deactivate_found save_active
deactivate-IsManaged tenant actor pk team (keyed, managed) =
    elim (Bool-cases (may_manage tenant actor team)) [
      | inr e ↦ rw (e) (keyed, managed)
      | inl e ↦ elim (Option-cases (first (is_in_team tenant.id pk) team.memberships.of_tenants)) [
        | inl missing ↦ rw (e, missing) (keyed, managed)
        | inr (t, found) ↦ elim (Bool-cases (t.user == actor)) [
          | inl own ↦ rw (e, found, own) (keyed, managed)
          | inr other ↦
              let (mine, active, admin) = acting_admin tenant actor team e in
              rw (e, found, other)
                (
                  set_active-IsKeyed false t.id team.memberships.of_tenants keyed,
                  deactivated-exists tenant actor t mine (is_in_team tenant.id pk)
                      team.memberships.of_tenants keyed active admin found (ground arith),
                )
        ]
      ]
    ]

activate-IsManaged :
    (tenant : Tenant) (actor pk : ℕ) (team : Team)
    → IsManaged tenant team
    → IsManaged tenant (team_member_activate tenant actor pk team).1
unfolding team_member_activate activate_found save_active
activate-IsManaged tenant actor pk team (keyed, managed) =
    elim (Bool-cases (may_manage tenant actor team)) [
      | inr e ↦ rw (e) (keyed, managed)
      | inl e ↦ elim (Option-cases (first (is_in_team tenant.id pk) team.memberships.of_tenants)) [
        | inl missing ↦ rw (e, missing) (keyed, managed)
        | inr (t, found) ↦
            rw (e, found)
              (
                set_active-IsKeyed true t.id team.memberships.of_tenants keyed,
                exists-update (is_admin tenant.id) (has_pk t.id)
                    (λ x. record x { is_active = true }) team.memberships.of_tenants
                    (λ y h. ground arith) managed,
              )
      ]
    ]

-- A tenant with unique membership keys and an active administrator still has an active
-- administrator after any sequence of requests that take members out and back in, whoever sends
-- them.
pub serve_team_all-IsManaged :
    (tenant : Tenant) (rs : List TeamRequest) (team : Team)
    → IsManaged tenant team
    → IsManaged tenant (serve_team_all tenant rs team)
unfolding serve_team_all
serve_team_all-IsManaged tenant [] team h = h
serve_team_all-IsManaged tenant (deactivate actor pk ∷ rs) team h =
    serve_team_all-IsManaged tenant rs (serve_team tenant (deactivate actor pk) team)
      (deactivate-IsManaged tenant actor pk team h)
serve_team_all-IsManaged tenant (activate actor pk ∷ rs) team h =
    serve_team_all-IsManaged tenant rs (serve_team tenant (activate actor pk) team)
      (activate-IsManaged tenant actor pk team h)
