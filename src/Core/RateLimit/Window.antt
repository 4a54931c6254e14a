-- ===== src/Core/RateLimit/Window.antt =====
-- How many requests of one client a window passes on.
use kusanya.Base.{
  ℕ, ◌+◌, ◌≤◌, ◌<◌, ◌==◌, ◌&&◌, String, Bool, true, false, none, some, List, [], ◌∷◌, ◌≡◌, ◌≢◌, ap,
  ◌∙◌, inl, inr, arith, leb, Bool-cases, Option-cases, str_eq, eq_iff, if◌then◌else◌,
}
use kusanya.Core.Cache.{Cache, or_zero, one_more}
use kusanya.Core.RateLimit.{
  Settings, HttpRequest, Decision, passed_on, too_many_requests, limit_key, count_request, handle,
}

module _ (cache : Cache) (settings : Settings) where
  -- The requests that reach the server, each with its time.
  abbrev pub is_own : String → ℕ × HttpRequest → Bool
  is_own k (t, r) = str_eq (limit_key r) k

  abbrev is_passed : Decision → Bool
  is_passed passed_on = true
  is_passed too_many_requests = false

  -- How many requests come from the client.
  unfoldable pub own : String → List (ℕ × HttpRequest) → ℕ
  own k [] = 0
  own k (x ∷ xs) = (if is_own k x then 1 else 0) + own k xs

  -- How many of them the limiter passes on.
  unfoldable pub passed : String → cache.State → List (ℕ × HttpRequest) → ℕ
  passed k s [] = 0
  passed k s ((t, r) ∷ xs) =
      let (decision, s') = handle cache settings s t r in
      let rest = passed k s' xs in (if is_own k (t, r) && is_passed decision then 1 else 0) + rest

  -- The requests come in the order of time and before the end, the limiter counts them all, and no
  -- write is lost.
  unfoldable pub IsCounted : ℕ → ℕ → List (ℕ × HttpRequest) → Type 0
  IsCounted now end [] = Unit
  IsCounted now end ((t, r) ∷ xs) =
      (now ≤ t)
      × (t < end)
      × (settings.is_exempt r.path ≡ false)
      × (r.reads ≡ true)
      × (r.writes ≡ true)
      × IsCounted t end xs

  -- The client's counter until the end of the window.
  abbrev Counts : String → ℕ → ℕ → ℕ → cache.State → Type 0
  Counts k n now end s = (t : ℕ) → now ≤ t → t < end → cache.get s t k ≡ some n

  handle-other :
      (k : String) (s : cache.State) (now t : ℕ) (r : HttpRequest)
      → k ≢ limit_key r
      → cache.get (handle cache settings s now r).1 t k ≡ cache.get s t k
  unfolding handle count_request
  handle-other k s now t r other =
      let set = cache.get-set_other s now (limit_key r) k 1 settings.window_seconds t other in
      elim (Option-cases (cache.get s now (limit_key r))) [
        | inl missing ↦ ground (arith, set)
        | inr (n, found) ↦
            ground (arith, set, cache.get-incr_other s now (limit_key r) k n t found other)
      ]

  -- What becomes of a request that the limiter counts, by the client's counter.
  handle-own :
      (s : cache.State) (now n : ℕ) (r : HttpRequest)
      → settings.limit ≢ 0
      → settings.is_exempt r.path ≡ false
      → r.reads ≡ true
      → r.writes ≡ true
      → or_zero (cache.get s now (limit_key r)) ≡ n
      → handle cache settings s now r ≡ (
          if leb settings.limit n then (too_many_requests, s) else (
            passed_on,
            if n == 0
                then cache.set s now (limit_key r) 1 settings.window_seconds
                else cache.incr s now (limit_key r),
          ))
  unfolding handle count_request
  handle-own s now n r on exempt reads writes e = rw (exempt, reads, writes, e) (ground arith)

  -- The counter after a request that it counts.
  incr-Counts :
      (k : String) (n now t end : ℕ) (s : cache.State)
      → now ≤ t
      → t < end
      → Counts k n now end s
      → Counts k (n + 1) t end (cache.incr s t k)
  incr-Counts k n now t end s le lt counts t' le' lt' =
      cache.get-incr s t k n t' (counts t le lt) le'
      ∙ ap one_more (counts t' (ground (arith, le, le')) lt')

  handle-counted :
      (k : String) (s : cache.State) (now n : ℕ) (r : HttpRequest)
      → settings.limit ≢ 0
      → n ≢ 0
      → settings.is_exempt r.path ≡ false
      → r.reads ≡ true
      → r.writes ≡ true
      → limit_key r ≡ k
      → cache.get s now k ≡ some n
      → handle cache settings s now r
        ≡ (if leb settings.limit n then (too_many_requests, s) else (passed_on, cache.incr s now k))
  handle-counted k s now n r on some_n exempt reads writes same found =
      let own_key =
        handle-own s now n r on exempt reads writes
          (ap (λ q. or_zero (cache.get s now q)) same ∙ ap or_zero found) in
      own_key
      ∙ ap
          (λ q. if leb settings.limit n then (too_many_requests, s) else (
            passed_on,
            if n == 0 then cache.set s now q 1 settings.window_seconds else cache.incr s now q,
          ))
          same
      ∙ ground arith

  abbrev at_most : ℕ → ℕ → ℕ
  at_most limit n = if leb n limit then n else limit

  passed-own :
      (k : String) (n now end : ℕ) (s : cache.State) (xs : List (ℕ × HttpRequest))
      → settings.limit ≢ 0
      → n ≢ 0
      → n ≤ settings.limit
      → Counts k n now end s
      → IsCounted now end xs
      → passed k s xs + n ≡ at_most settings.limit (own k xs + n)
  unfolding passed own IsCounted
  passed-own k n now end s [] on some_n le counts h = ground arith
  passed-own k n now end s ((t, r) ∷ xs) on some_n le counts
        (le_t, lt_t, exempt, reads, writes, h) =
      elim (Bool-cases (str_eq (limit_key r) k)) [
        | inr other ↦
            let later =
              passed-own k n t end (handle cache settings s t r).1 xs on some_n le
                (λ t' le' lt'.
                  handle-other k s t t' r (not_key other)
                  ∙ counts t' (ground (arith, le_t, le')) lt')
                h in
            rw (other) (ground (arith, later))
        | inl same ↦
            let step =
              handle-counted k s t n r on some_n exempt reads writes
                ((eq_iff (limit_key r) k).0 same) (counts t le_t lt_t) in
            elim (Bool-cases (leb settings.limit n)) [
              | inl full ↦
                  let later =
                    passed-own k n t end s xs on some_n le
                      (λ t' le' lt'. counts t' (ground (arith, le_t, le')) lt') h in
                  rw (same, step, full) (ground (arith, later))
              | inr more ↦
                  let later =
                    passed-own k (n + 1) t end (cache.incr s t k) xs on (ground arith)
                      (ground arith) (incr-Counts k n now t end s le_t lt_t counts) h in
                  rw (same, step, more) (ground (arith, later))
            ]
      ]
    where
      not_key : str_eq (limit_key r) k ≡ false → k ≢ limit_key r
      not_key other e = ground (arith, other, eq_iff (limit_key r) k)

  -- The first request of a window, passed on.
  abbrev opened : cache.State → ℕ → String → Decision × cache.State
  opened s now k = (passed_on, cache.set s now k 1 settings.window_seconds)

  -- A client without a counter sends its first request of a window, and then any others until the
  -- window is over, between requests of others: the limiter passes on all of the client's requests
  -- up to the limit, and no more.
  pub passed-window :
      (k : String) (start : ℕ) (r : HttpRequest) (s : cache.State) (xs : List (ℕ × HttpRequest))
      → settings.limit ≢ 0
      → limit_key r ≡ k
      → cache.get s start k ≡ none
      → IsCounted start (start + settings.window_seconds) ((start, r) ∷ xs)
      → passed k s ((start, r) ∷ xs) ≡ at_most settings.limit (own k ((start, r) ∷ xs))
  unfolding passed own IsCounted
  passed-window k start r s xs on same fresh (le, lt, exempt, reads, writes, h) =
      let first_one =
        handle-own s start 0 r on exempt reads writes
          (ap (λ q. or_zero (cache.get s start q)) same ∙ ap or_zero fresh) in
      let later =
        passed-own k 1 start (start + settings.window_seconds)
          (cache.set s start k 1 settings.window_seconds) xs on (ground arith) (ground arith)
          (λ t le' lt'. cache.get-set s start k 1 settings.window_seconds t lt') h in
      let step =
        first_one
        ∙ ap (λ q. if leb settings.limit 0 then (too_many_requests, s) else opened s start q) same
        ∙ open_window in
      rw ((eq_iff (limit_key r) k).1 same, step) (ground (arith, later))
    where
      open_window :
          (if leb settings.limit 0 then (too_many_requests, s) else opened s start k)
          ≡ opened s start k
      open_window = ground (arith, on)
