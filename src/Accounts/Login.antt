-- ===== src/Accounts/Login.antt =====
-- apps/accounts/views.py: the two steps of a login, for one session; and the two other ways into a
-- session, the registration of an institution (apps/tenants/views.py) and the login of Django's
-- admin site (config/urls.py). Django's check of the e-mail and the password is a parameter: whom
-- the form lets in. A request that raises changes nothing.
use kusanya.Base.{
  ℕ, Bool, not, Option, none, some, List, [], ◌∷◌, String, ◌==◌, is_some, if◌then◌else◌,
}
use kusanya.Base.Table.{first, update, put_rows}
use kusanya.Core.Cache.{Cache}
use kusanya.Accounts.Throttle.{is_locked_out, record_failure, reset}
use kusanya.Accounts.Totp.{Checked, accepted, rejected, raises_type_error, strip}
use kusanya.Accounts.Models.{MfaDevice, Factors, is_active_device_of}
use kusanya.Accounts.Mfa.{Crypto, check_totp, consume_backup_code}

-- The keys of the session: who is logged in, and `mfa_pending_user_id`.
pub record Session : Type 0 where
  pub user : Option ℕ
  pub mfa_pending : Option ℕ

-- The primary keys of the users, and their text.
pub record Users : Type 0 where
  pub exists : ℕ → Bool
  pub key_text : ℕ → String

pub data Request : Type 0 where
  -- A submitted login form: the throttle's identifier, and whom the form lets in.
  login : String → Option ℕ → Request
  -- A visit of the page for the code, and a submitted code.
  visit_verify logout : Request
  submit_code : String → Request
  -- A submitted login form of the admin site, and whom it lets in: its form asks for a password.
  admin_login : Option ℕ → Request
  -- A valid registration of an institution, with the new user that it creates.
  onboard : ℕ → Request

-- Django's `login(request, user)`: the session of another user is flushed first.
unfoldable pub enter : ℕ → Session → Session
enter user s = elim s.user [
  | none ↦ record s { user = some user }
  | some other ↦ if other == user then s else record { user = some user; mfa_pending = none }
]

module _ (cache : Cache) (crypto : Crypto) (users : Users) where
  pub record Site : Type 0 where
    pub counts : cache.State
    pub factors : Factors
    pub session : Session

  -- `EmailLoginView.form_valid`
  unfoldable pub form_valid : String → ℕ → Site → Site
  form_valid identifier user s =
      let counts = reset cache s.counts "login" identifier in
      elim (first (is_active_device_of user) s.factors.devices.rows) [
        | some device ↦ record s {
          counts = counts;
          session = record s.session { mfa_pending = some user };
        }
        | none ↦ record s { counts = counts; session = record s.session { user = some user } }
      ]

  -- `EmailLoginView.post`: a user who is logged in is redirected.
  unfoldable pub post_login : ℕ → String → Option ℕ → Site → Site
  post_login now identifier form s =
      if is_some s.session.user
      then s
      else if is_locked_out cache s.counts now "login" identifier
      then s
      else elim form [
        | some user ↦ form_valid identifier user s
        | none ↦ record s { counts = record_failure cache s.counts now "login" identifier }
      ]

  -- The device's answer to a code.
  unfoldable pub check_device : Option MfaDevice → String → ℕ → Checked
  check_device none code now = rejected
  check_device (some device) code now = check_totp crypto device.secret code now

  -- A code was right: the session is the user's, and a device was used.
  unfoldable pub let_in : ℕ → ℕ → Factors → Option MfaDevice → Site → Site
  let_in now user factors device s = record {
    counts = reset cache s.counts "mfa" (users.key_text user);
    factors = elim device [
      | none ↦ factors
      | some d ↦ record factors {
        devices = put_rows factors.devices (
            update (λ x. x.id == d.id) (λ x. record x { last_used_at = some now })
              factors.devices.rows);
      }
    ];
    session = record { user = some user; mfa_pending = none };
  }

  -- The rest of `mfa_verify` after the device's answer: the backup codes are tried next.
  unfoldable pub after_device : Checked → ℕ → ℕ → String → Option MfaDevice → Site → Site
  after_device accepted now user code device s = let_in now user s.factors device s
  after_device raises_type_error now user code device s = s
  after_device rejected now user code device s =
      let (used, factors) = consume_backup_code crypto user code now s.factors in
      if used
      then let_in now user factors device s
      else record s { counts = record_failure cache s.counts now "mfa" (users.key_text user) }

  unfoldable pub check_code : ℕ → ℕ → String → Site → Site
  check_code now user raw_code s =
      let code = strip crypto.char_tests raw_code in
      let device = first (is_active_device_of user) s.factors.devices.rows in
      if is_locked_out cache s.counts now "mfa" (users.key_text user)
      then s
      else after_device (check_device device code now) now user code device s

  -- `mfa_verify`, of a visit or of a submitted code
  unfoldable pub mfa_verify : ℕ → Option String → Site → Site
  mfa_verify now submitted s = elim s.session.mfa_pending [
    | none ↦ s
    | some user ↦
        if not (users.exists user)
        then record s { session = record s.session { mfa_pending = none } }
        else elim submitted [ none ↦ s | some code ↦ check_code now user code s ]
  ]

  unfoldable pub serve : ℕ → Request → Site → Site
  serve now (login identifier form) s = post_login now identifier form s
  serve now visit_verify s = mfa_verify now none s
  serve now (submit_code code) s = mfa_verify now (some code) s
  serve now (admin_login none) s = s
  serve now (admin_login (some user)) s = record s { session = enter user s.session }
  serve now (onboard user) s = record s { session = enter user s.session }
  serve now logout s = record s { session = record { user = none; mfa_pending = none } }

  -- The requests of one session, each with its time.
  unfoldable pub serve_session : List (ℕ × Request) → Site → Site
  serve_session [] s = s
  serve_session ((now, r) ∷ rs) s = serve_session rs (serve now r s)
