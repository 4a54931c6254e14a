-- ===== src/Api/Authentication.antt =====
-- apps/api/authentication.py and apps/api/permissions.py. `is_space` is Python's test of a space.
use kusanya.Base.{ℕ, Bool, true, false, not, Option, none, some, ◌||◌, ◌==◌, str_eq, if◌then◌else◌}
use Prim.Native.String.{String, [], ◌∷◌}
use Prim.Native.Char.{Char, code}
use kusanya.Base.Table.{first}
use kusanya.Base.Text.{take_chars, drop_chars, rstrip, lstrip}
use kusanya.Tenants.Models.{is_active_status}
use kusanya.Api.Credentials.{Hasher, ApiCredential, ApiState, has_key, mark_used}

abbrev pub is_dot : Char → Bool
is_dot c = code c == 46

-- `"." in token`
unfoldable pub has_dot : String → Bool
has_dot [] = false
has_dot (c ∷ t) = is_dot c || has_dot t

-- `token.partition(".")`: what is before the first dot, and what is after it.
unfoldable pub before_dot : String → String
before_dot [] = []
before_dot (c ∷ t) = let rest = before_dot t in if is_dot c then [] else c ∷ rest

unfoldable pub after_dot : String → String
after_dot [] = []
after_dot (c ∷ t) = let rest = after_dot t in if is_dot c then t else rest

-- `authenticate` returns nothing, raises `AuthenticationFailed`, or returns the credential, whose
-- tenant becomes the request's.
pub data Answer : Type 0 where
  not_this_scheme failed : Answer
  authenticated : ApiCredential → Answer

module _ (hasher : Hasher) (is_space : Char → Bool) where
  unfoldable pub check_found : Option ApiCredential → String → ℕ → ApiState → Answer × ApiState
  check_found none raw_secret now s = (failed, s)
  check_found (some credential) raw_secret now s =
      if not credential.is_active
      then (failed, s)
      else if not (hasher.check_password raw_secret credential.secret_hash)
      then (failed, s)
      else if not (is_active_status (s.status_of credential.tenant.id))
      then (failed, s)
      else (authenticated credential, mark_used credential now s)

  unfoldable pub check_token : String → ℕ → ApiState → Answer × ApiState
  check_token token now s =
      if not (has_dot token)
      then (failed, s)
      else check_found (first (has_key (before_dot token)) s.credentials.rows) (after_dot token) now
          s

  abbrev pub token_of : String → String
  token_of header = rstrip is_space (lstrip is_space (drop_chars 7 header))

  unfoldable pub authenticate : String → ℕ → ApiState → Answer × ApiState
  authenticate header now s =
      if not (str_eq (take_chars 7 header) "Bearer ")
      then (not_this_scheme, s)
      else check_token (token_of header) now s

-- `HasApiCredential.has_permission`
unfoldable pub has_permission : Answer → Bool
has_permission (authenticated credential) = true
has_permission _ = false
