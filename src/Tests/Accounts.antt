-- ===== src/Tests/Accounts.antt =====
-- The theorems about logins, codes and the rate limiter at work.
use kusanya.Base.{
  ◌⊎◌, ℕ, ◌+◌, ◌*◌, ◌&&◌, ◌-◌, ◌/◌, ◌≤◌, ◌==◌, String, true, false, none, some, List, [], ◌∷◌, ◌≡◌,
  ◌↔◌, refl, length, arith, leb,
}
use kusanya.Base.Table.{first, count, exists, update}
use Prim.Native.Char.{code}
use kusanya.Base.Text.{every_char, lstrip, rstrip}
use kusanya.Core.RateLimit.{Settings, HttpRequest, client_key}
use kusanya.Core.RateLimit.Window.{own, passed, IsCounted, passed-window}
use kusanya.Accounts.Throttle.{is_locked_out, reset}
use kusanya.Accounts.Lockout.{IsQuick, record_failures, record_failures-lock}
use kusanya.Accounts.Totp.{CharTests, accepted, strip, isdigit, hotp, verify_totp, period_seconds}
use kusanya.Accounts.Window.{verify_totp_iff}
use kusanya.Accounts.Models.{Factors}
use kusanya.Accounts.Mfa.{Crypto, use_found, consume_backup_code}
use kusanya.Accounts.BackupCodes.{consume_backup_code-once}
use kusanya.Accounts.Login.{
  Users, login, admin_login, onboard, submit_code, Site, serve, serve_session, mfa_verify,
  post_login, form_valid, check_code, after_device, check_device, let_in,
}
use kusanya.Accounts.Entry.{is_login_of, serve_session-known}
use kusanya.Accounts.SecondFactor.{Entered, serve-second_factor}
use kusanya.Tests.MemoryCache.{memory_cache}

abbrev tests : CharTests
tests = record { is_space = λ c. code c == 32; is_digit = λ c. leb 48 (code c) && leb (code c) 57 }

-- A digest whose code is the counter.
abbrev digest : String → ℕ → List ℕ
digest secret counter =
    0 ∷ 0 ∷ 0 ∷ counter ∷ 0 ∷ 0 ∷ 0 ∷ 0 ∷ 0 ∷ 0 ∷ 0 ∷ 0 ∷ 0 ∷ 0 ∷ 0 ∷ 0 ∷ 0 ∷ 0 ∷ 0 ∷ 0 ∷ []

abbrev crypto : Crypto
crypto = record {
  hmac_sha1 = digest;
  char_tests = tests;
  lookup_hash = λ t. t;
  looks_like_backup_code = λ t. true;
}

-- Five failures within the lockout lock the identifier out, and four do not.
record_failures-lock_example :
    is_locked_out memory_cache
      (record_failures memory_cache "login" "ip:a" (λ k. none) (10 ∷ 20 ∷ 30 ∷ 40 ∷ 50 ∷ []))
      60
      "login"
      "ip:a"
    ≡ true
unfolding IsQuick length
record_failures-lock_example =
    record_failures-lock memory_cache "login" "ip:a" (λ k. none) 10 (20 ∷ 30 ∷ 40 ∷ 50 ∷ []) 60 refl
      (omega arith, (omega arith, (omega arith, (omega arith, omega arith))))

abbrev two_a_minute : Settings
two_a_minute = record { limit = 2; window_seconds = 60; is_exempt = λ path. false }

abbrev visit : HttpRequest
visit = record {
  path = "/portal/";
  user_pk = some "7";
  client_ip = none;
  reads = true;
  writes = true;
}

passed-window_example :
    passed memory_cache two_a_minute "request_rate_limit:user:7"
      (λ k. none)
      ((5, visit) ∷ (6, visit) ∷ (7, visit) ∷ [])
    ≡ 2
unfolding client_key own IsCounted
passed-window_example =
    passed-window memory_cache two_a_minute "request_rate_limit:user:7" 5 visit (λ k. none)
      ((6, visit) ∷ (7, visit) ∷ []) (λ e. ground arith) refl refl
      (
        omega arith,
        omega arith,
        refl,
        refl,
        refl,
        (
          omega arith,
          omega arith,
          refl,
          refl,
          refl,
          (omega arith, omega arith, refl, refl, refl, tt),
        ),
      )

verify_totp_iff_example : (verify_totp digest tests "s" " 000003 " 1 100 ≡ accepted) ↔ (
    (isdigit tests (strip tests " 000003 ") ≡ true)
    × ((k : ℕ) × (k ≤ 2 * 1)
        × (hotp digest "s" (100 / period_seconds + k - 1) ≡ strip tests " 000003 ")))
unfolding every_char rstrip lstrip
verify_totp_iff_example = verify_totp_iff digest tests "s" " 000003 " 1 100 (omega arith) refl

abbrev one_code : Factors
one_code = record {
  devices = record {
    next = 1;
    rows = record { id = 0; user = 7; secret = "s"; confirmed = true; last_used_at = none } ∷ [];
  };
  backup_codes = record {
    next = 1;
    rows = record { id = 0; user = 7; lookup_hash = "ABCDE-12345"; used_at = none } ∷ [];
  };
  audit = [];
}

consume_backup_code-once_example :
    (consume_backup_code crypto 7 "ABCDE-12345" 20
      (consume_backup_code crypto 7 "ABCDE-12345" 10 one_code).1).0
    ≡ false
unfolding count consume_backup_code use_found first
consume_backup_code-once_example =
    consume_backup_code-once crypto 7 "ABCDE-12345" 10 20 one_code (omega arith) refl

abbrev users : Users
users = record { exists = λ u. true; key_text = λ u. "7" }

abbrev visitor : Site memory_cache crypto users
visitor = record {
  counts = λ k. none;
  factors = one_code;
  session = record { user = none; mfa_pending = none };
}

abbrev waiting : Site memory_cache crypto users
waiting = record visitor { session = record { user = none; mfa_pending = some 7 } }

serve_session-known_example :
    exists
      (is_login_of memory_cache crypto users 7)
      ((100, login "ip:a" (some 7)) ∷ (101, submit_code "ABCDE-12345") ∷ [])
    ≡ true
unfolding serve_session serve mfa_verify post_login is_locked_out form_valid first check_code reset
    after_device check_device verify_totp rstrip lstrip every_char let_in consume_backup_code
    use_found update exists
serve_session-known_example =
    serve_session-known memory_cache crypto users 7
      ((100, login "ip:a" (some 7)) ∷ (101, submit_code "ABCDE-12345") ∷ []) visitor
      (λ e. ground arith) (λ e. ground arith) refl

serve-second_factor_example :
    Entered memory_cache crypto users 101 7
      (submit_code "ABCDE-12345")
      (record { id = 0; user = 7; secret = "s"; confirmed = true; last_used_at = none })
      waiting
    ⊎ (submit_code "ABCDE-12345" ≡ admin_login (some 7))
    ⊎ (submit_code "ABCDE-12345" ≡ onboard 7)
unfolding serve_session serve mfa_verify post_login is_locked_out form_valid first check_code reset
    after_device check_device verify_totp rstrip lstrip every_char let_in consume_backup_code
    use_found update
serve-second_factor_example =
    serve-second_factor memory_cache crypto users 101 7 (submit_code "ABCDE-12345")
      (record { id = 0; user = 7; secret = "s"; confirmed = true; last_used_at = none }) waiting
      refl (λ e. ground arith) refl
