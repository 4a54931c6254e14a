-- ===== src/Accounts/Totp.antt =====
-- apps/accounts/totp.py. The HMAC of the decoded secret and the packed counter is the library's
-- and a parameter, which gives the bytes of the digest; `hmac.compare_digest` is equality. Times
-- are whole seconds, at least a window after 0 (the source fails at a counter below 0).
pub mod Digest
use Prim.Native.String.{◌++◌}
use Prim.Native.Char.{Char, code}
use kusanya.Base.Text.{every_char, lstrip, rstrip}
use kusanya.Accounts.Totp.Digest.{truncated}
use kusanya.Base.{
  ℕ, zero, suc, ◌+◌, ◌-◌, ◌*◌, ◌/◌, ◌%◌, ◌^◌, Bool, true, false, not, List, ◌==◌, ◌&&◌, ltb, String,
  str_eq, if◌then◌else◌,
}

abbrev pub period_seconds : ℕ
period_seconds = 30

abbrev pub valid_window : ℕ
valid_window = 1

unfoldable pub digit_text : ℕ → String
digit_text n =
    if n == 0
    then "0"
    else if n == 1
    then "1"
    else if n == 2
    then "2"
    else if n == 3
    then "3"
    else if n == 4
    then "4"
    else if n == 5
    then "5"
    else if n == 6
    then "6"
    else if n == 7
    then "7"
    else if n == 8
    then "8"
    else "9"

-- The last decimal digits of a number, as many as asked for, before a text: of a number with no
-- more digits, its text filled with zeros on the left.
unfoldable pub digits_before : ℕ → ℕ → String → String
digits_before zero n more = more
digits_before (suc k) n more = digits_before k (n / 10) (digit_text (n % 10) ++ more)

-- `str(n).zfill(6)`, of a number of at most six digits
unfoldable pub zfill_six : ℕ → String
zfill_six n = digits_before 6 n ""

-- How a check of a code ends: `compare_digest` raises a `TypeError` at a text that is not ASCII.
pub data Checked : Type 0 where
  accepted rejected raises_type_error : Checked

-- The tests of Python on characters, by the tables of Unicode.
pub record CharTests : Type 0 where
  pub is_space : Char → Bool
  pub is_digit : Char → Bool

abbrev pub strip : CharTests → String → String
strip tests t = rstrip tests.is_space (lstrip tests.is_space t)

-- `text.isdigit()`
abbrev pub isdigit : CharTests → String → Bool
isdigit tests t = not (str_eq t "") && every_char tests.is_digit t

abbrev pub is_ascii : String → Bool
is_ascii t = every_char (λ c. ltb (code c) 128) t

module _ {Secret : Type 0} (hmac_sha1 : Secret → ℕ → List ℕ) where
  unfoldable pub hotp : Secret → ℕ → String
  hotp secret counter = zfill_six (truncated (hmac_sha1 secret counter) % 1000000)

  unfoldable pub generate_totp : Secret → ℕ → String
  generate_totp secret for_time = hotp secret (for_time / period_seconds)

  -- The loop of `verify_totp`, over so many offsets from a time on.
  unfoldable pub some_candidate : Secret → String → ℕ → ℕ → Bool
  some_candidate secret code zero for_time = false
  some_candidate secret code (suc offsets) for_time =
      let rest = some_candidate secret code offsets (for_time + period_seconds) in
      if str_eq (generate_totp secret for_time) code then true else rest

  unfoldable pub verify_totp : CharTests → Secret → String → ℕ → ℕ → Checked
  verify_totp tests secret raw_code window now =
      let code = strip tests raw_code in
      if not (isdigit tests code)
      then rejected
      else if not (is_ascii code)
      then raises_type_error
      else if some_candidate secret code (2 * window + 1) (now - window * period_seconds)
      then accepted
      else rejected
