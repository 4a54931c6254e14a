-- ===== src/Api/Rotated.antt =====
-- Which secret a credential has after it is rotated.
use kusanya.Base.{
  ℕ, Bool, true, false, not, Option, some, ◌≡◌, refl, ap, ◌∙◌, arith, str_eq, if◌then◌else◌,
}
use Prim.Native.String.{String, ◌++◌}
use Prim.Native.Char.{Char}
use kusanya.Base.Table.{first, touched, first-update}
use kusanya.Base.Text.{every_char}
use kusanya.Tenants.Models.{is_active_status}
use kusanya.Api.Credentials.{Hasher, ApiCredential, ApiState, has_key, has_pk, rotate_credential}
use kusanya.Api.Authentication.{has_dot, check_found, authenticate, has_permission}
use kusanya.Api.Admitted.{header_of, authenticate-header}

module _ (hasher : Hasher) (is_space : Char → Bool) where
  rotate_credential-first :
      (c : ApiCredential) (actor : Option ℕ) (salt raw_secret : String) (s : ApiState)
      → first (has_key c.key_id) s.credentials.rows ≡ some c
      → first
          (has_key c.key_id)
          (rotate_credential hasher c actor salt raw_secret s).credentials.rows
        ≡ some (record c { secret_hash = hasher.make_password salt raw_secret })
  unfolding rotate_credential
  rotate_credential-first c actor salt raw_secret s found =
      let f : ApiCredential → ApiCredential =
        λ x. record x { secret_hash = hasher.make_password salt raw_secret } in
      let own : has_pk c.id c ≡ true = ground arith in
      first-update (has_pk c.id) (has_key c.key_id) f s.credentials.rows (λ x. refl)
      ∙ ap (touched (has_pk c.id) f) found
      ∙ ap (λ b. some (if b then f c else c)) own

  -- After a rotation, an active credential of an active tenant is let in with the new secret and
  -- with no other, the old one included; where the key has no dot and neither has a space.
  pub rotate_credential-admitted :
      (c : ApiCredential) (actor : Option ℕ) (salt raw_secret tried : String) (now : ℕ)
      (s : ApiState)
      → first (has_key c.key_id) s.credentials.rows ≡ some c
      → c.is_active ≡ true
      → is_active_status (s.status_of c.tenant.id) ≡ true
      → has_dot c.key_id ≡ false
      → every_char (λ x. not (is_space x)) (c.key_id ++ ("." ++ tried)) ≡ true
      → has_permission
          (authenticate hasher is_space
            (header_of hasher is_space c.key_id tried)
            now
            (rotate_credential hasher c actor salt raw_secret s)).0
        ≡ str_eq tried raw_secret
  unfolding check_found has_permission rotate_credential
  rotate_credential-admitted c actor salt raw_secret tried now s found on active h plain =
      let rotated = rotate_credential hasher c actor salt raw_secret s in
      rw
        (
          authenticate-header hasher is_space c.key_id tried now rotated plain h,
          rotate_credential-first c actor salt raw_secret s found,
          on,
          hasher.check-make salt raw_secret tried,
        )
        (ground (arith, active))
