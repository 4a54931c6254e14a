-- ===== src/Api/Admitted.antt =====
-- Whom the API lets in.
use kusanya.Base.{
  ℕ, Bool, true, false, not, Option, some, ◌≡◌, refl, ap, ◌∙◌, arith, inl, inr, eq_iff,
  Option-cases,
}
use Prim.Native.String.{String, [], ◌∷◌, ◌++◌}
use Prim.Native.String.append
use Prim.Native.Char.{Char, char}
use kusanya.Base.Table.{first, exists}
use kusanya.Base.Text.{every_char, lstrip, rstrip, take_chars-append, drop_chars-append}
use kusanya.Tenants.Models.{Tenant, is_active_status}
use kusanya.Api.Credentials.{
  Hasher, ApiCredential, ApiState, has_key, new_credential, create_credential,
}
use kusanya.Api.Authentication.{
  has_dot, before_dot, after_dot, authenticated, token_of, check_found, check_token, authenticate,
}

lstrip-same : (p : Char → Bool) (t : String) → every_char (λ c. not (p c)) t ≡ true → lstrip p t ≡ t
unfolding lstrip every_char
lstrip-same p [] h = refl
lstrip-same p (c ∷ t) h = ground arith

rstrip-same : (p : Char → Bool) (t : String) → every_char (λ c. not (p c)) t ≡ true → rstrip p t ≡ t
unfolding rstrip every_char
rstrip-same p [] h = refl
rstrip-same p (c ∷ t) h = ground (arith, rstrip-same p t)

abbrev dot : Char
dot = char 46 tt

dot-first : (t : String) → "." ++ t ≡ dot ∷ t
dot-first t = append.cons dot "" t ∙ ap (λ u. dot ∷ u) (append.nil t)

-- The parts of a token whose key has no dot.
token-parts :
    (k t : String)
    → has_dot k ≡ false
    → (has_dot (k ++ ("." ++ t)) ≡ true)
      × (before_dot (k ++ ("." ++ t)) ≡ k)
      × (after_dot (k ++ ("." ++ t)) ≡ t)
unfolding has_dot before_dot after_dot
token-parts [] t h = rw (append.nil ("." ++ t), dot-first t) (refl, refl, refl)
token-parts (c ∷ k) t h = rw (append.cons c k ("." ++ t)) (ground (arith, token-parts k t))

module _ (hasher : Hasher) (is_space : Char → Bool) where
  -- The API lets a request in as a credential only if the credential has the token's key and is
  -- active, the token's secret is its own, and its tenant is active.
  pub authenticate-admits :
      (header : String) (now : ℕ) (s : ApiState) (c : ApiCredential)
      → (authenticate hasher is_space header now s).0 ≡ authenticated c
      → (first (has_key (before_dot (token_of hasher is_space header))) s.credentials.rows ≡ some c)
        × (c.is_active ≡ true)
        × (hasher.check_password (after_dot (token_of hasher is_space header)) c.secret_hash ≡ true)
        × (is_active_status (s.status_of c.tenant.id) ≡ true)
  unfolding authenticate check_token check_found
  authenticate-admits header now s c h =
      elim (Option-cases
        (first (has_key (before_dot (token_of hasher is_space header))) s.credentials.rows)) [
          | inl missing ↦ ground arith
          | inr (d, found) ↦ ground arith
        ]

  -- The header that a caller sends for a key and its secret.
  abbrev pub header_of : String → String → String
  header_of key_id raw_secret = "Bearer " ++ (key_id ++ ("." ++ raw_secret))

  token_of-header :
      (key_id raw_secret : String)
      → every_char (λ c. not (is_space c)) (key_id ++ ("." ++ raw_secret)) ≡ true
      → token_of hasher is_space (header_of key_id raw_secret) ≡ key_id ++ ("." ++ raw_secret)
  token_of-header key_id raw_secret h =
      let token = key_id ++ ("." ++ raw_secret) in
      ap (λ t. rstrip is_space (lstrip is_space t)) (drop_chars-append "Bearer " token)
      ∙ ap (λ t. rstrip is_space t) (lstrip-same is_space token h)
      ∙ rstrip-same is_space token h

  -- What becomes of such a header.
  pub authenticate-header :
      (key_id raw_secret : String) (now : ℕ) (s : ApiState)
      → every_char (λ c. not (is_space c)) (key_id ++ ("." ++ raw_secret)) ≡ true
      → has_dot key_id ≡ false
      → authenticate hasher is_space (header_of key_id raw_secret) now s
        ≡ check_found hasher is_space (first (has_key key_id) s.credentials.rows) raw_secret now s
  unfolding authenticate check_token
  authenticate-header key_id raw_secret now s plain h =
      let token = key_id ++ ("." ++ raw_secret) in
      let (dotted, before, after) = token-parts key_id raw_secret h in
      rw
        (
          take_chars-append "Bearer " token,
          token_of-header key_id raw_secret plain,
          dotted,
          before,
          after,
        )
        refl

  -- Right after a credential with a new key is created, a request with its key and secret is let in
  -- if its tenant is active, where the key has no dot and neither has a space.
  pub create_credential-admitted :
      (tenant : Tenant) (name : String) (actor : Option ℕ) (key_id salt raw_secret : String)
      (now : ℕ) (s : ApiState)
      → exists (has_key key_id) s.credentials.rows ≡ false
      → is_active_status (s.status_of tenant.id) ≡ true
      → has_dot key_id ≡ false
      → every_char (λ c. not (is_space c)) (key_id ++ ("." ++ raw_secret)) ≡ true
      → (authenticate hasher is_space
          (header_of key_id raw_secret)
          now
          (create_credential hasher tenant name actor key_id salt raw_secret s)).0
        ≡ authenticated
            (new_credential hasher tenant name actor key_id salt raw_secret s.credentials.next)
  unfolding create_credential check_found first
  create_credential-admitted tenant name actor key_id salt raw_secret now s fresh active h plain =
      rw
        (
          authenticate-header key_id raw_secret now
              (create_credential hasher tenant name actor key_id salt raw_secret s) plain h,
          fresh,
          (eq_iff key_id key_id).1 refl,
          hasher.check-make salt raw_secret raw_secret,
          (eq_iff raw_secret raw_secret).1 refl,
          active,
        )
        refl
