-- ===== src/Core/Cache.antt =====
-- Django's cache, as the throttle and the rate limiter use it: its operations at a time, and what
-- its documentation promises of them. The library is not the repository's and stays a parameter.
use kusanya.Base.{ℕ, ◌+◌, ◌≤◌, ◌<◌, String, Option, none, some, ◌≡◌, ◌≢◌}

abbrev pub one_more : Option ℕ → Option ℕ
one_more none = none
one_more (some n) = some (n + 1)

pub record Cache : Type 1 where
  pub State : Type 0
  -- `cache.get(key)` at a time
  pub get : State → ℕ → String → Option ℕ
  -- `cache.set(key, value, timeout=...)` at a time
  pub set : State → ℕ → String → ℕ → ℕ → State
  -- `cache.incr(key)` at a time, of a key that is there
  pub incr : State → ℕ → String → State
  pub delete : State → String → State
  pub get-set :
      (s : State) (now : ℕ) (k : String) (v timeout t : ℕ)
      → t < now + timeout
      → get (set s now k v timeout) t k ≡ some v
  pub get-set_expired :
      (s : State) (now : ℕ) (k : String) (v timeout t : ℕ)
      → now + timeout ≤ t
      → get (set s now k v timeout) t k ≡ none
  pub get-set_other :
      (s : State) (now : ℕ) (k k' : String) (v timeout t : ℕ)
      → k' ≢ k
      → get (set s now k v timeout) t k' ≡ get s t k'
  pub get-incr :
      (s : State) (now : ℕ) (k : String) (n t : ℕ)
      → get s now k ≡ some n
      → now ≤ t
      → get (incr s now k) t k ≡ one_more (get s t k)
  pub get-incr_other :
      (s : State) (now : ℕ) (k k' : String) (n t : ℕ)
      → get s now k ≡ some n
      → k' ≢ k
      → get (incr s now k) t k' ≡ get s t k'
  pub get-delete : (s : State) (k : String) (t : ℕ) → get (delete s k) t k ≡ none
  pub get-delete_other :
      (s : State) (k k' : String) (t : ℕ) → k' ≢ k → get (delete s k) t k' ≡ get s t k'

-- `cache.get(key, 0)`
abbrev pub or_zero : Option ℕ → ℕ
or_zero none = 0
or_zero (some n) = n
