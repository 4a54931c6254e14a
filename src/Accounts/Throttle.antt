-- ===== src/Accounts/Throttle.antt =====
-- apps/accounts/throttle.py
use kusanya.Base.{ℕ, ◌+◌, ◌*◌, String, Bool, leb}
use Prim.Native.String.{◌++◌}
use kusanya.Core.Cache.{Cache, or_zero}

abbrev pub max_attempts : ℕ
max_attempts = 5

abbrev pub lockout_seconds : ℕ
lockout_seconds = 15 * 60

abbrev pub throttle_key : String → String → String
throttle_key scope identifier = "auth_throttle:" ++ (scope ++ (":" ++ identifier))

module _ (cache : Cache) where
  unfoldable pub is_locked_out : cache.State → ℕ → String → String → Bool
  is_locked_out s now scope identifier =
      leb max_attempts (or_zero (cache.get s now (throttle_key scope identifier)))

  -- The count is what `record_failure` returns, which no caller uses.
  unfoldable pub record_failure : cache.State → ℕ → String → String → cache.State
  record_failure s now scope identifier =
      let key = throttle_key scope identifier in
      cache.set s now key (or_zero (cache.get s now key) + 1) lockout_seconds

  unfoldable pub reset : cache.State → String → String → cache.State
  reset s scope identifier = cache.delete s (throttle_key scope identifier)
