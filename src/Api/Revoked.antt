-- ===== src/Api/Revoked.antt =====
-- What revoking and rotating a credential stops.
use kusanya.Base.{
  ℕ, Bool, true, false, Option, none, some, List, [], ◌∷◌, String, ◌≡◌, refl, ap, ◌∙◌, arith, inl,
  inr, str_eq, eq_iff, if◌then◌else◌, Bool-cases,
}
use Prim.Native.Char.{Char}
use kusanya.Base.Table.{first, exists, touched, first-update, first-exists}
use kusanya.Tenants.Models.{Tenant}
use kusanya.Api.Credentials.{
  Hasher, ApiCredential, ApiState, has_pk, has_key, save_fields, create_credential,
  rotate_credential, revoke_credential, mark_used,
}
use kusanya.Api.Authentication.{
  Answer, before_dot, token_of, check_found, check_token, authenticate, has_permission,
}

-- The calls that reach the credentials: of the portal, by primary key, and requests of the API.
pub data Call : Type 0 where
  create : Tenant → String → Option ℕ → String → String → String → Call
  rotate : ℕ → Option ℕ → String → String → Call
  revoke : ℕ → Option ℕ → ℕ → Call
  request : String → ℕ → Call

module _ (hasher : Hasher) (is_space : Char → Bool) where
  unfoldable pub on_found : Option ApiCredential → (ApiCredential → ApiState) → ApiState → ApiState
  on_found none f s = s
  on_found (some c) f s = f c

  unfoldable pub serve_call : Call → ApiState → ApiState
  serve_call (create tenant name actor key_id salt raw_secret) s =
      create_credential hasher tenant name actor key_id salt raw_secret s
  serve_call (rotate i actor salt raw_secret) s =
      on_found (first (has_pk i) s.credentials.rows)
        (λ c. rotate_credential hasher c actor salt raw_secret s) s
  serve_call (revoke i actor now) s =
      on_found (first (has_pk i) s.credentials.rows) (λ c. revoke_credential c actor now s) s
  serve_call (request header now) s = (authenticate hasher is_space header now s).1

  unfoldable pub serve_calls : List Call → ApiState → ApiState
  serve_calls [] s = s
  serve_calls (c ∷ cs) s = serve_calls cs (serve_call c s)

  -- The credential with the key is there, and not active.
  abbrev pub IsRevoked : String → ApiState → Type 0
  IsRevoked key_id s =
      (c : ApiCredential) × (first (has_key key_id) s.credentials.rows ≡ some c)
      × (c.is_active ≡ false)

  save_fields-IsRevoked :
      (key_id : String) (i : ℕ) (f : ApiCredential → ApiCredential) (s : ApiState)
      → ((c : ApiCredential) → (f c).key_id ≡ c.key_id)
      → ((c : ApiCredential) → c.is_active ≡ false → (f c).is_active ≡ false)
      → IsRevoked key_id s
      → IsRevoked key_id (save_fields i f s)
  save_fields-IsRevoked key_id i f s keys stays (c, found, inactive) =
      let saved =
        first-update (has_pk i) (has_key key_id) f s.credentials.rows
          (λ x. ap (λ k. str_eq k key_id) (keys x)) in
      (
        (if has_pk i c then f c else c),
        saved ∙ ap (touched (has_pk i) f) found,
        ground (arith, inactive, stays c),
      )

  on_found-IsRevoked :
      (key_id : String) (o : Option ApiCredential) (f : ApiCredential → ApiState) (s : ApiState)
      → ((c : ApiCredential) → IsRevoked key_id (f c))
      → IsRevoked key_id s
      → IsRevoked key_id (on_found o f s)
  unfolding on_found
  on_found-IsRevoked key_id none f s h r = r
  on_found-IsRevoked key_id (some c) f s h r = h c

  if-IsRevoked :
      (key_id : String) (b : Bool) (x y : Answer × ApiState)
      → IsRevoked key_id x.1
      → IsRevoked key_id y.1
      → IsRevoked key_id (if b then x else y).1
  if-IsRevoked key_id true x y h k = h
  if-IsRevoked key_id false x y h k = k

  check_found-IsRevoked :
      (key_id : String) (o : Option ApiCredential) (raw_secret : String) (now : ℕ) (s : ApiState)
      → IsRevoked key_id s
      → IsRevoked key_id (check_found hasher is_space o raw_secret now s).1
  unfolding check_found mark_used
  check_found-IsRevoked key_id none raw_secret now s r = r
  check_found-IsRevoked key_id (some c) raw_secret now s r =
      let used =
        save_fields-IsRevoked key_id c.id (λ x. record x { last_used_at = some now }) s (λ x. refl)
          (λ x off. off) r in
      search (if-IsRevoked, used)

  authenticate-IsRevoked :
      (key_id header : String) (now : ℕ) (s : ApiState)
      → IsRevoked key_id s
      → IsRevoked key_id (authenticate hasher is_space header now s).1
  unfolding authenticate check_token
  authenticate-IsRevoked key_id header now s r = search (if-IsRevoked, check_found-IsRevoked)

  serve_call-IsRevoked :
      (key_id : String) (call : Call) (s : ApiState)
      → IsRevoked key_id s
      → IsRevoked key_id (serve_call call s)
  unfolding serve_call create_credential rotate_credential revoke_credential first
  serve_call-IsRevoked key_id (create tenant name actor k salt raw_secret) s (c, found, off) =
      elim (Bool-cases (exists (has_key k) s.credentials.rows)) [
        | inl taken ↦ rw (taken) (c, found, off)
        | inr free ↦ rw (free) (c, rw (other_key free) found, off)
      ]
    where
      other_key : exists (has_key k) s.credentials.rows ≡ false → str_eq k key_id ≡ false
      other_key free = elim (Bool-cases (str_eq k key_id)) [
        | inr e ↦ e
        | inl e ↦
            let there = first-exists (has_key key_id) s.credentials.rows c found in
            let same = ap (λ q. exists (has_key q) s.credentials.rows) ((eq_iff k key_id).0 e) in
            ground (arith, free, there, same)
      ]
  serve_call-IsRevoked key_id (rotate i actor salt raw_secret) s r =
      on_found-IsRevoked key_id (first (has_pk i) s.credentials.rows)
        (λ c. rotate_credential hasher c actor salt raw_secret s) s
        (λ c.
          save_fields-IsRevoked key_id c.id
            (λ x. record x { secret_hash = hasher.make_password salt raw_secret }) s (λ x. refl)
            (λ x off. off) r)
        r
  serve_call-IsRevoked key_id (revoke i actor now) s r =
      on_found-IsRevoked key_id (first (has_pk i) s.credentials.rows)
        (λ c. revoke_credential c actor now s) s
        (λ c.
          save_fields-IsRevoked key_id c.id
            (λ x. record x { is_active = false; revoked_at = some now }) s (λ x. refl)
            (λ x off. refl) r)
        r
  serve_call-IsRevoked key_id (request header now) s r =
      authenticate-IsRevoked key_id header now s r

  serve_calls-IsRevoked :
      (key_id : String) (calls : List Call) (s : ApiState)
      → IsRevoked key_id s
      → IsRevoked key_id (serve_calls calls s)
  unfolding serve_calls
  serve_calls-IsRevoked key_id [] s r = r
  serve_calls-IsRevoked key_id (c ∷ cs) s r =
      serve_calls-IsRevoked key_id cs (serve_call c s) (serve_call-IsRevoked key_id c s r)

  authenticate-revoked :
      (header : String) (now : ℕ) (s : ApiState)
      → IsRevoked (before_dot (token_of hasher is_space header)) s
      → has_permission (authenticate hasher is_space header now s).0 ≡ false
  unfolding authenticate check_token check_found has_permission
  authenticate-revoked header now s (c, found, off) = ground arith

  revoke_credential-IsRevoked :
      (key_id : String) (actor : Option ℕ) (now : ℕ) (c : ApiCredential) (s : ApiState)
      → first (has_key key_id) s.credentials.rows ≡ some c
      → IsRevoked key_id (revoke_credential c actor now s)
  unfolding revoke_credential
  revoke_credential-IsRevoked key_id actor now c s found =
      let f : ApiCredential → ApiCredential =
        λ x. record x { is_active = false; revoked_at = some now } in
      (
        (if has_pk c.id c then f c else c),
        first-update (has_pk c.id) (has_key key_id) f s.credentials.rows (λ x. refl)
            ∙ ap (touched (has_pk c.id) f) found,
        ground arith,
      )

  -- After a credential is revoked: no request with its key is let in, whatever its secret, and
  -- whatever credentials the services create, rotate and revoke, and the API authenticates, in
  -- between. It does not cover the admin site, whose form can set `is_active` again.
  pub revoke_credential-final :
      (c : ApiCredential) (actor : Option ℕ) (now later : ℕ) (calls : List Call) (header : String)
      (s : ApiState)
      → first (has_key (before_dot (token_of hasher is_space header))) s.credentials.rows ≡ some c
      → has_permission
          (authenticate hasher is_space header later
            (serve_calls calls (revoke_credential c actor now s))).0
        ≡ false
  revoke_credential-final c actor now later calls header s found =
      let key_id = before_dot (token_of hasher is_space header) in
      authenticate-revoked header later (serve_calls calls (revoke_credential c actor now s)) (
        serve_calls-IsRevoked key_id calls (revoke_credential c actor now s)
          (revoke_credential-IsRevoked key_id actor now c s found))
