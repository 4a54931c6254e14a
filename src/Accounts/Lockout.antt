-- ===== src/Accounts/Lockout.antt =====
-- When a login or the entry of a code is locked out.
use kusanya.Base.{
  ℕ, ◌+◌, ◌≤◌, ◌<◌, String, false, none, List, [], ◌∷◌, ◌≡◌, refl, arith, leb, length,
}
use kusanya.Core.Cache.{Cache, or_zero}
use kusanya.Accounts.Throttle.{lockout_seconds, throttle_key, is_locked_out, record_failure, reset}

-- Each of these times is less than the lockout after the one before it.
unfoldable pub IsQuick : ℕ → List ℕ → ℕ → Type 0
IsQuick t [] now = now < t + lockout_seconds
IsQuick t (t' ∷ ts) now = (t' < t + lockout_seconds) × IsQuick t' ts now

module _ (cache : Cache) (scope identifier : String) where
  -- Failures, one after the other.
  unfoldable pub record_failures : cache.State → List ℕ → cache.State
  record_failures s [] = s
  record_failures s (t ∷ ts) = record_failures (record_failure cache s t scope identifier) ts

  failures : cache.State → ℕ → ℕ
  failures s now = or_zero (cache.get s now (throttle_key scope identifier))

  record_failure-failures :
      (s : cache.State) (t now : ℕ)
      → now < t + lockout_seconds
      → failures (record_failure cache s t scope identifier) now ≡ failures s t + 1
  unfolding failures record_failure
  record_failure-failures s t now lt =
      let key = throttle_key scope identifier in
      rw (cache.get-set s t key (failures s t + 1) lockout_seconds now lt) refl

  record_failures-failures :
      (s : cache.State) (t : ℕ) (ts : List ℕ) (now : ℕ)
      → IsQuick t ts now
      → failures (record_failures s (t ∷ ts)) now ≡ failures s t + length (t ∷ ts)
  unfolding record_failures length IsQuick
  record_failures-failures s t [] now quick = record_failure-failures s t now quick
  record_failures-failures s t (t' ∷ ts) now (lt, quick) = omega (
    arith,
    record_failures-failures (record_failure cache s t scope identifier) t' ts now quick,
    record_failure-failures s t t' lt,
  )

  -- After failures that follow one another within the lockout, where none was on record before the
  -- first: the identifier is locked out if there were at least 5, and else not.
  pub record_failures-lock :
      (s : cache.State) (t : ℕ) (ts : List ℕ) (now : ℕ)
      → cache.get s t (throttle_key scope identifier) ≡ none
      → IsQuick t ts now
      → is_locked_out cache (record_failures s (t ∷ ts)) now scope identifier
        ≡ leb 5 (length (t ∷ ts))
  unfolding is_locked_out failures
  record_failures-lock s t ts now h quick =
      ground (arith, record_failures-failures s t ts now quick)

  -- A lockout ends: once the time is over, and at a reset.
  pub lockout-ends :
      (s : cache.State) (t now : ℕ)
      → t + lockout_seconds ≤ now
      → (is_locked_out cache (record_failure cache s t scope identifier) now scope identifier
          ≡ false)
        × (is_locked_out cache (reset cache s scope identifier) now scope identifier ≡ false)
  unfolding is_locked_out record_failure reset
  lockout-ends s t now h =
      let key = throttle_key scope identifier in
      (
        rw (cache.get-set_expired s t key (or_zero (cache.get s t key) + 1) lockout_seconds now h)
            refl,
        rw (cache.get-delete s key now) refl,
      )
