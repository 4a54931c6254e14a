-- ===== src/Accounts/SecondFactor.antt =====
-- What a user with an active device needs to log in.
use kusanya.Base.{
  ℕ, true, false, Option, none, some, String, ◌≡◌, ◌≢◌, ◌⊎◌, inl, inr, refl, sym, subst, ap, ◌∙◌,
  arith, Option-cases,
}
use kusanya.Base.Table.{first}
use kusanya.Core.Cache.{Cache}
use kusanya.Accounts.Throttle.{is_locked_out}
use kusanya.Accounts.Totp.{Checked, accepted, strip}
use kusanya.Accounts.Models.{MfaDevice, is_active_device_of}
use kusanya.Accounts.Mfa.{Crypto, check_totp, consume_backup_code}
use kusanya.Accounts.Login.{
  Users, Session, Request, admin_login, onboard, enter, login, visit_verify, logout, submit_code,
  Site, form_valid, post_login, check_device, let_in, after_device, check_code, mfa_verify, serve,
}

enter-user : (v u : ℕ) (s : Session) → s.user ≢ some u → (enter v s).user ≡ some u → v ≡ u
unfolding enter
enter-user v u s fresh h = ground arith

module _ (cache : Cache) (crypto : Crypto) (users : Users) where
  -- The user's code was right: by the device, or a backup code that was not used before.
  abbrev pub IsRight : ℕ → ℕ → String → MfaDevice → Site cache crypto users → Type 0
  IsRight now u code d s =
      (check_totp crypto d.secret code now ≡ accepted)
      ⊎ ((consume_backup_code crypto u code now s.factors).0 ≡ true)

  form_valid-user :
      (identifier : String) (v u : ℕ) (s : Site cache crypto users)
      → s.session.user ≢ some u
      → (form_valid cache crypto users identifier v s).session.user ≡ some u
      → (v ≡ u) × (first (is_active_device_of v) s.factors.devices.rows ≡ none)
  unfolding form_valid
  form_valid-user identifier v u s fresh h = ground arith

  form_valid-waits :
      (identifier : String) (v u : ℕ) (d : MfaDevice) (s : Site cache crypto users)
      → first (is_active_device_of u) s.factors.devices.rows ≡ some d
      → s.session.user ≢ some u
      → (form_valid cache crypto users identifier v s).session.user ≢ some u
  form_valid-waits identifier v u d s active fresh h =
      let (same, inactive) = form_valid-user identifier v u s fresh h in
      let none_active =
        subst (λ x. first (is_active_device_of x) s.factors.devices.rows ≡ none) same inactive in
      ground (arith, active, none_active)

  after_device-user :
      (now v u : ℕ) (code : String) (d : Option MfaDevice) (answer : Checked)
      (s : Site cache crypto users)
      → s.session.user ≢ some u
      → (after_device cache crypto users answer now v code d s).session.user ≡ some u
      → (v ≡ u)
        × ((answer ≡ accepted) ⊎ ((consume_backup_code crypto v code now s.factors).0 ≡ true))
  unfolding after_device let_in
  after_device-user now v u code d answer s fresh h = ground arith

  abbrev pub Entered : ℕ → ℕ → Request → MfaDevice → Site cache crypto users → Type 0
  Entered now u r d s =
      (raw_code : String) × (r ≡ submit_code raw_code)
      × (s.session.mfa_pending ≡ some u)
      × (is_locked_out cache s.counts now "mfa" (users.key_text u) ≡ false)
      × IsRight now u (strip crypto.char_tests raw_code) d s

  -- The same for the user that the session waits for.
  abbrev Passes : ℕ → ℕ → String → Site cache crypto users → Type 0
  Passes now v code s =
      (is_locked_out cache s.counts now "mfa" (users.key_text v) ≡ false)
      × ((check_device cache crypto users (first (is_active_device_of v) s.factors.devices.rows)
              code now
            ≡ accepted)
          ⊎ ((consume_backup_code crypto v code now s.factors).0 ≡ true))

  check_code-Passes :
      (now v u : ℕ) (raw_code : String) (s : Site cache crypto users)
      → s.session.user ≢ some u
      → (check_code cache crypto users now v raw_code s).session.user ≡ some u
      → (v ≡ u) × Passes now v (strip crypto.char_tests raw_code) s
  unfolding check_code
  check_code-Passes now v u raw_code s fresh h =
      let code = strip crypto.char_tests raw_code in
      let d = first (is_active_device_of v) s.factors.devices.rows in
      ground (
        arith,
        after_device-user now v u code d (check_device cache crypto users d code now) s fresh,
      )

  check_code-user :
      (now v u : ℕ) (raw_code : String) (d : MfaDevice) (s : Site cache crypto users)
      → first (is_active_device_of u) s.factors.devices.rows ≡ some d
      → s.session.user ≢ some u
      → (check_code cache crypto users now v raw_code s).session.user ≡ some u
      → (v ≡ u)
        × (is_locked_out cache s.counts now "mfa" (users.key_text u) ≡ false)
        × IsRight now u (strip crypto.char_tests raw_code) d s
  unfolding check_device
  check_code-user now v u raw_code d s active fresh h =
      let code = strip crypto.char_tests raw_code in
      let (same, passes) = check_code-Passes now v u raw_code s fresh h in
      let (free, right) = subst (λ x. Passes now x code s) same passes in
      (
        same,
        free,
        elim right [
          | inl e ↦ inl (sym (ap (λ o. check_device cache crypto users o code now) active) ∙ e)
          | inr e ↦ inr e
        ],
      )

  -- A user with an active device: a request to the login pages or the logout
  -- (apps/accounts/urls.py) makes the session the user's only if it submits a code, while the
  -- session waits for the user's code and the user's codes are not locked out, and the code is the
  -- device's or an unused backup code. Two requests to other pages make it the user's without any
  -- code: the admin site's login, and a registration with this user as the new one.
  pub serve-second_factor :
      (now u : ℕ) (r : Request) (d : MfaDevice) (s : Site cache crypto users)
      → first (is_active_device_of u) s.factors.devices.rows ≡ some d
      → s.session.user ≢ some u
      → (serve cache crypto users now r s).session.user ≡ some u
      → Entered now u r d s ⊎ (r ≡ admin_login (some u)) ⊎ (r ≡ onboard u)
  unfolding serve post_login mfa_verify enter
  serve-second_factor now u (login identifier none) d s active fresh h = ground arith
  serve-second_factor now u (login identifier (some v)) d s active fresh h =
      ground (arith, form_valid-waits identifier v u d s active fresh)
  serve-second_factor now u visit_verify d s active fresh h = ground arith
  serve-second_factor now u (submit_code raw_code) d s active fresh h =
      elim (Option-cases s.session.mfa_pending) [
        | inl e ↦ ground arith
        | inr (v, e) ↦
            let entered : (check_code cache crypto users now v raw_code s).session.user ≡ some u =
              ground arith in
            let (same, free, right) = check_code-user now v u raw_code d s active fresh entered in
            inl (raw_code, refl, e ∙ ap (λ x. some x) same, free, right)
      ]
  serve-second_factor now u (admin_login none) d s active fresh h = absurd (fresh h)
  serve-second_factor now u (admin_login (some v)) d s active fresh h =
      inr (inl (ap (λ x. admin_login (some x)) (enter-user v u s.session fresh h)))
  serve-second_factor now u (onboard v) d s active fresh h =
      inr (inr (ap onboard (enter-user v u s.session fresh h)))
  serve-second_factor now u logout d s active fresh h = ground arith
