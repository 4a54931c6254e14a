-- ===== src/Tests/MemoryCache.antt =====
-- A cache in memory that keeps what Django's documentation promises: a text's value and the time
-- at which it expires.
use kusanya.Base.{
  ℕ, ◌+◌, String, Option, none, some, ◌≡◌, ◌≢◌, refl, inl, inr, arith, ltb, str_eq, eq_iff,
  Bool-cases, if◌then◌else◌,
}
use kusanya.Core.Cache.{Cache, one_more}

abbrev Entries : Type 0
Entries = String → Option (ℕ × ℕ)

-- The value of an entry that has not expired.
abbrev live : ℕ → Option (ℕ × ℕ) → Option ℕ
live t none = none
live t (some (v, expires)) = if ltb t expires then some v else none

abbrev bumped : Option (ℕ × ℕ) → Option (ℕ × ℕ)
bumped none = none
bumped (some (v, expires)) = some (v + 1, expires)

abbrev put : Entries → String → Option (ℕ × ℕ) → Entries
put s k e k' = if str_eq k' k then e else s k'

pub put-same : (s : Entries) (k : String) (e : Option (ℕ × ℕ)) → put s k e k ≡ e
put-same s k e = rw ((eq_iff k k).1 refl) refl

pub put-other : (s : Entries) (k k' : String) (e : Option (ℕ × ℕ)) → k' ≢ k → put s k e k' ≡ s k'
put-other s k k' e other = elim (Bool-cases (str_eq k' k)) [
  | inl same ↦ ground (arith, other ((eq_iff k' k).0 same))
  | inr e ↦ rw (e) refl
]

pub live-bumped : (t : ℕ) (e : Option (ℕ × ℕ)) → live t (bumped e) ≡ one_more (live t e)
live-bumped t none = refl
live-bumped t (some (v, expires)) = ground arith

abbrev pub memory_cache : Cache
memory_cache = record {
  State = Entries;
  get = λ s t k. live t (s k);
  set = λ s now k v timeout. put s k (some (v, now + timeout));
  incr = λ s now k. put s k (bumped (s k));
  delete = λ s k. put s k none;
  get-set =
      λ s now k v timeout t lt. rw (put-same s k (some (v, now + timeout))) (ground (arith, lt));
  get-set_expired =
      λ s now k v timeout t le. rw (put-same s k (some (v, now + timeout))) (ground (arith, le));
  get-set_other =
      λ s now k k' v timeout t other. rw (put-other s k k' (some (v, now + timeout)) other) refl;
  get-incr = λ s now k n t found le. rw (put-same s k (bumped (s k))) (live-bumped t (s k));
  get-incr_other = λ s now k k' n t found other. rw (put-other s k k' (bumped (s k)) other) refl;
  get-delete = λ s k t. rw (put-same s k none) refl;
  get-delete_other = λ s k k' t other. rw (put-other s k k' none other) refl;
}
