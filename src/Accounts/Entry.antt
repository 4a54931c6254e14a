-- ===== src/Accounts/Entry.antt =====
-- How a session comes to be a user's.
use kusanya.Base.{
  ℕ, Bool, true, false, Option, none, some, List, [], ◌∷◌, String, ◌==◌, ◌≡◌, ◌≢◌, ◌⊎◌, inl, inr,
  refl, arith, Option-cases,
}
use kusanya.Base.Table.{first, exists}
use kusanya.Core.Cache.{Cache}
use kusanya.Accounts.Totp.{Checked, accepted, rejected, raises_type_error, strip}
use kusanya.Accounts.Models.{MfaDevice, is_active_device_of}
use kusanya.Accounts.Mfa.{Crypto, consume_backup_code}
use kusanya.Accounts.Login.{
  Users, Request, admin_login, onboard, enter, login, visit_verify, logout, submit_code, Site,
  form_valid, post_login, check_device, let_in, after_device, check_code, mfa_verify, serve,
  serve_session,
}

module _ (cache : Cache) (crypto : Crypto) (users : Users) where
  -- The session is the user's, or waits for the user's code.
  abbrev pub IsKnown : ℕ → Site cache crypto users → Type 0
  IsKnown u s = (s.session.user ≡ some u) ⊎ (s.session.mfa_pending ≡ some u)

  -- A login form, the portal's or the admin site's, lets the user in, or the user registers.
  abbrev pub is_login_of : ℕ → ℕ × Request → Bool
  is_login_of u (now, login identifier (some v)) = v == u
  is_login_of u (now, admin_login (some v)) = v == u
  is_login_of u (now, onboard v) = v == u
  is_login_of u _ = false

  let_in-session :
      (now user u : ℕ) (factors : _) (device : Option MfaDevice) (s : Site cache crypto users)
      → IsKnown u (let_in cache crypto users now user factors device s)
      → user ≡ u
  unfolding let_in
  let_in-session now user u factors device s h = ground arith

  after_device-IsKnown :
      (answer : Checked) (now user u : ℕ) (code : String) (device : Option MfaDevice)
      (s : Site cache crypto users)
      → IsKnown u (after_device cache crypto users answer now user code device s)
      → (user ≡ u) ⊎ IsKnown u s
  unfolding after_device
  after_device-IsKnown accepted now user u code device s h =
      inl (let_in-session now user u s.factors device s h)
  after_device-IsKnown raises_type_error now user u code device s h = inr h
  after_device-IsKnown rejected now user u code device s h =
      let factors = (consume_backup_code crypto user code now s.factors).1 in
      ground (arith, let_in-session now user u factors device s)

  mfa_verify-IsKnown :
      (now u : ℕ) (submitted : Option String) (s : Site cache crypto users)
      → IsKnown u (mfa_verify cache crypto users now submitted s)
      → IsKnown u s
  unfolding mfa_verify check_code
  mfa_verify-IsKnown now u submitted s h = elim (Option-cases s.session.mfa_pending) [
    | inl e ↦ ground arith
    | inr (user, e) ↦ elim (Option-cases submitted) [
      | inl visit ↦ ground arith
      | inr (raw_code, post) ↦
          let code = strip crypto.char_tests raw_code in
          let device = first (is_active_device_of user) s.factors.devices.rows in
          ground (
            arith,
            after_device-IsKnown (check_device cache crypto users device code now) now user u code
                device s,
          )
    ]
  ]

  serve-IsKnown :
      (now u : ℕ) (r : Request) (s : Site cache crypto users)
      → IsKnown u (serve cache crypto users now r s)
      → (is_login_of u (now, r) ≡ true) ⊎ IsKnown u s
  unfolding serve post_login form_valid enter
  serve-IsKnown now u (login identifier none) s h = ground arith
  serve-IsKnown now u (login identifier (some v)) s h = ground arith
  serve-IsKnown now u visit_verify s h = inr (mfa_verify-IsKnown now u none s h)
  serve-IsKnown now u (submit_code code) s h = inr (mfa_verify-IsKnown now u (some code) s h)
  serve-IsKnown now u (admin_login none) s h = inr h
  serve-IsKnown now u (admin_login (some v)) s h = ground arith
  serve-IsKnown now u (onboard v) s h = ground arith
  serve-IsKnown now u logout s h = ground arith

  served-IsKnown :
      (u : ℕ) (rs : List (ℕ × Request)) (s : Site cache crypto users)
      → IsKnown u (serve_session cache crypto users rs s)
      → (exists (is_login_of u) rs ≡ true) ⊎ IsKnown u s
  unfolding serve_session exists
  served-IsKnown u [] s h = inr h
  served-IsKnown u ((now, r) ∷ rs) s h =
      elim (served-IsKnown u rs (serve cache crypto users now r s) h) [
        | inl later ↦ inl (ground arith)
        | inr known ↦ elim (serve-IsKnown now u r s known) [
          | inl here ↦ inl (rw (here) refl)
          | inr before ↦ inr before
        ]
      ]

  -- A session that is not the user's, and does not wait for the user's code, becomes the user's only
  -- if one of the requests lets the user in: a login form of the portal or of the admin site, or
  -- the registration that creates the user.
  pub serve_session-known :
      (u : ℕ) (rs : List (ℕ × Request)) (s : Site cache crypto users)
      → s.session.user ≢ some u
      → s.session.mfa_pending ≢ some u
      → (serve_session cache crypto users rs s).session.user ≡ some u
      → exists (is_login_of u) rs ≡ true
  serve_session-known u rs s fresh waits h = elim (served-IsKnown u rs s (inl h)) [
    | inl found ↦ found
    | inr (inl e) ↦ ground (arith, fresh e)
    | inr (inr e) ↦ ground (arith, waits e)
  ]
