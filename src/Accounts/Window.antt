-- ===== src/Accounts/Window.antt =====
-- Which codes `verify_totp` accepts, and the shape of a code.
use kusanya.Base.{
  ℕ, zero, suc, ◌+◌, ◌-◌, ◌*◌, ◌/◌, ◌%◌, ◌≤◌, ◌<◌, ◌==◌, Bool, true, false, List, String, ◌≡◌, ◌↔◌,
  refl, sym, ap, ◌∙◌, inl, inr, arith, length, Bool-cases, str_eq, eq_iff, if◌then◌else◌,
}
use Prim.Native.String.{◌++◌, count}
use text.Mathlib.TextLemmas.{length-append}
use kusanya.Accounts.Totp.{
  period_seconds, digit_text, digits_before, zfill_six, accepted, CharTests, strip, isdigit,
  is_ascii, hotp, generate_totp, some_candidate, verify_totp,
}
use kusanya.Accounts.Totp.Digest.{offset_of, truncated}

if-count : (b : Bool) (s t : String) → count s ≡ 1 → count t ≡ 1 → count (if b then s else t) ≡ 1
if-count true s t h k = h
if-count false s t h k = k

digit_text-count : (n : ℕ) → count (digit_text n) ≡ 1
unfolding digit_text
digit_text-count n = if-count (n == 0) "0" _ refl (
    if-count (n == 1) "1" _ refl (
      if-count (n == 2) "2" _ refl (
        if-count (n == 3) "3" _ refl (
          if-count (n == 4) "4" _ refl (
            if-count (n == 5) "5" _ refl (
              if-count (n == 6) "6" _ refl
                (if-count (n == 7) "7" _ refl (if-count (n == 8) "8" _ refl refl))))))))

digits_before-count : (k n : ℕ) (more : String) → count (digits_before k n more) ≡ k + count more
unfolding digits_before
digits_before-count zero n more = omega arith
digits_before-count (suc k) n more = omega (
  arith,
  digits_before-count k (n / 10) (digit_text (n % 10) ++ more),
  length-append (digit_text (n % 10)) more,
  digit_text-count (n % 10),
)

module _ {Secret : Type 0} (hmac_sha1 : Secret → ℕ → List ℕ) where
  -- Of an HMAC of 20 bytes, the four bytes that make a code lie within it; and the code has six
  -- digits, zeros in front included.
  pub hotp-bounds :
      (secret : Secret) (counter : ℕ)
      → length (hmac_sha1 secret counter) ≡ 20
      → (offset_of (hmac_sha1 secret counter) + 4 ≤ length (hmac_sha1 secret counter))
        × (count (hotp hmac_sha1 secret counter) ≡ 6)
  unfolding hotp zfill_six offset_of
  hotp-bounds secret counter h =
      (omega arith, digits_before-count 6 (truncated (hmac_sha1 secret counter) % 1000000) "")

  some_candidate_iff :
      (secret : Secret) (code : String) (offsets t : ℕ)
      → (some_candidate hmac_sha1 secret code offsets t ≡ true) ↔ (
          (k : ℕ) × (k < offsets)
          × (generate_totp hmac_sha1 secret (t + k * period_seconds) ≡ code))
  unfolding some_candidate
  some_candidate_iff secret code zero t = (λ h. ground arith, λ (k, lt, e). ground arith)
  some_candidate_iff secret code (suc offsets) t =
      elim (Bool-cases (str_eq (generate_totp hmac_sha1 secret t) code)) [
        | inl e ↦ rw (e) (
          λ h. (0, omega arith, here ∙ (eq_iff (generate_totp hmac_sha1 secret t) code).0 e),
          λ h. refl,
        )
        | inr e ↦ rw (e) (
          λ h.
              let (k, lt, same) =
                (some_candidate_iff secret code offsets (t + period_seconds)).0 h in
              (k + 1, omega arith, next k ∙ same),
          λ (k, lt, same).
              (some_candidate_iff secret code offsets (t + period_seconds)).1 (one_on e k lt same),
        )
      ]
    where
      here :
          generate_totp hmac_sha1 secret (t + 0 * period_seconds) ≡ generate_totp hmac_sha1 secret t
      here = ap (λ q. generate_totp hmac_sha1 secret q) (omega arith)

      next :
          (k : ℕ)
          → generate_totp hmac_sha1 secret (t + (k + 1) * period_seconds)
            ≡ generate_totp hmac_sha1 secret (t + period_seconds + k * period_seconds)
      next k = ap (λ q. generate_totp hmac_sha1 secret q) (omega arith)

      one_on :
          str_eq (generate_totp hmac_sha1 secret t) code ≡ false
          → (k : ℕ) → k < suc offsets
          → generate_totp hmac_sha1 secret (t + k * period_seconds) ≡ code
          → (j : ℕ) × (j < offsets)
            × (generate_totp hmac_sha1 secret (t + period_seconds + j * period_seconds) ≡ code)
      one_on e zero lt same =
          ground (arith, (eq_iff (generate_totp hmac_sha1 secret t) code).1 (sym here ∙ same))
      one_on e (suc j) lt same = (j, omega arith, sym (after j) ∙ same)
        where
          after :
              (k : ℕ)
              → generate_totp hmac_sha1 secret (t + suc k * period_seconds)
                ≡ generate_totp hmac_sha1 secret (t + period_seconds + k * period_seconds)
          after k = ap (λ q. generate_totp hmac_sha1 secret q) (omega arith)

  -- Where the time is at least a window after 0 and the code is plain ASCII: the code is accepted
  -- just if, without the spaces around it, it is digits and the code of one of the periods from a
  -- window before the present one to a window after it.
  pub verify_totp_iff :
      (tests : CharTests) (secret : Secret) (raw_code : String) (window now : ℕ)
      → window * period_seconds ≤ now
      → is_ascii (strip tests raw_code) ≡ true
      → (verify_totp hmac_sha1 tests secret raw_code window now ≡ accepted) ↔ (
          (isdigit tests (strip tests raw_code) ≡ true)
          × ((k : ℕ) × (k ≤ 2 * window)
              × (hotp hmac_sha1 secret (now / period_seconds + k - window) ≡ strip tests raw_code)))
  unfolding verify_totp generate_totp
  verify_totp_iff tests secret raw_code window now late ascii =
      let code = strip tests raw_code in
      let candidates =
        some_candidate_iff secret code (2 * window + 1) (now - window * period_seconds) in
      elim (Bool-cases (isdigit tests code)) [
        | inr e ↦ rw (e) (λ h. ground arith, λ (h, found). ground arith)
        | inl e ↦
            elim (Bool-cases (
              some_candidate hmac_sha1 secret code (2 * window + 1)
                (now - window * period_seconds))) [
                  | inl found ↦
                      rw (e, ascii, found)
                        (
                          λ h. (
                            refl,
                            let (k, lt, same) = candidates.0 found in
                                (k, omega arith, counter k ∙ same),
                          ),
                          λ h. refl,
                        )
                  | inr missing ↦
                      rw (e, ascii, missing)
                        (
                          λ h. ground arith,
                          λ (h, (k, le, same)).
                              ground (arith, candidates.1 (k, omega arith, sym (counter k) ∙ same)),
                        )
                ]
      ]
    where
      counter :
          (k : ℕ)
          → hotp hmac_sha1 secret (now / period_seconds + k - window)
            ≡ generate_totp hmac_sha1 secret (now - window * period_seconds + k * period_seconds)
      counter k = ap (λ c. hotp hmac_sha1 secret c) (omega arith)
