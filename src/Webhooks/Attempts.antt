-- ===== src/Webhooks/Attempts.antt =====
-- How often a delivery is attempted, and how it ends.
use kusanya.Base.{
  ℕ, zero, suc, ◌+◌, ◌≤◌, ◌<◌, ◌-◌, ◌==◌, ◌^◌, Bool, true, false, Option, some, List, [], ◌∷◌, ◌≡◌,
  refl, inl, inr, arith, Bool-cases, Option-cases, leb, if◌then◌else◌, length, subst, sym,
}
use Prim.Native.Nat.pow
use kusanya.Base.Table.{first, update, first-passes, first-replaced}
use kusanya.Core.Result.{Result, ok}
use kusanya.Core.Tasks.{TaskEnd, returns, retries}
use kusanya.Webhooks.Models.{WebhookDelivery, WebhookDeliveryStatus}
use kusanya.Webhooks.Delivery.{
  HttpRequest, HttpAnswer, responds, raises, Wire, is_delivered, build_request, take_answer, has_id,
  retry_countdown, perform_delivery, after_failure, attempt_delivery, deliver_found,
  deliver_webhook, run_deliveries, save_delivery,
}
use kusanya.Store.{Store}
use kusanya.Store.Action.{pure, ◌>>=◌}

-- The delivery is over: it reached the endpoint, or went to the dead letters.
abbrev pub IsFinal : WebhookDeliveryStatus → Type 0
IsFinal WebhookDeliveryStatus.delivered = Unit
IsFinal WebhookDeliveryStatus.dead_letter = Unit
IsFinal _ = ⊥

-- The delivery's row.
abbrev pub row_of : ℕ → Store → Option WebhookDelivery
row_of i s = first (has_id i) s.deliveries.rows

pub save-row :
    (i : ℕ) (s : Store) (d d' : WebhookDelivery)
    → row_of i s ≡ some d
    → d'.id ≡ d.id
    → row_of i (save_delivery d' s).1 ≡ some d'
unfolding ◌>>=◌
save-row i s d d' h e =
    subst (λ k. first (has_id i) (update (has_id k) (λ _. d') s.deliveries.rows) ≡ some d')
      (sym same) (first-replaced (has_id i) s.deliveries.rows d d' h passes)
  where
    same : d'.id ≡ i
    same = ground (arith, first-passes (has_id i) s.deliveries.rows d h)

    passes : has_id i d' ≡ true
    passes = ground (arith, same)

-- What a run that found the delivery leaves of it, by how the run ended.
abbrev pub IsAttempt : WebhookDelivery → TaskEnd → WebhookDelivery → Type 0
IsAttempt d returns d' = IsFinal d'.status × (d'.attempt_count ≤ d.attempt_count + 1)
IsAttempt d (retries seconds) d' =
    (d'.status ≡ WebhookDeliveryStatus.retrying)
    × (d'.attempt_count ≡ d.attempt_count + 1)
    × (d'.attempt_count < d.max_attempts)
    × (d'.max_attempts ≡ d.max_attempts)
    × (d'.id ≡ d.id)
    × (seconds ≡ retry_countdown d'.attempt_count)

abbrev pub Attempted : ℕ → WebhookDelivery → Result TaskEnd × Store → Type 0
Attempted i d (r, s') =
    (end : TaskEnd) × (d' : WebhookDelivery) × (r ≡ ok end)
    × (row_of i s' ≡ some d')
    × IsAttempt d end d'

after_failure-Attempted :
    (i : ℕ) (s : Store) (d d' : WebhookDelivery)
    → row_of i s ≡ some d'
    → d'.attempt_count ≡ d.attempt_count + 1
    → d'.max_attempts ≡ d.max_attempts
    → d'.id ≡ d.id
    → Attempted i d (after_failure d' s)
unfolding after_failure ◌>>=◌
after_failure-Attempted i s d d' h n m e =
    elim (Bool-cases (leb d'.max_attempts d'.attempt_count)) [
      | inl full ↦ rw (full) (
        returns,
        record d' { status = WebhookDeliveryStatus.dead_letter },
        refl,
        save-row i s d' (record d' { status = WebhookDeliveryStatus.dead_letter }) h refl,
        (tt, omega arith),
      )
      | inr more ↦ rw (more) (
        retries (retry_countdown d'.attempt_count),
        record d' { status = WebhookDeliveryStatus.retrying },
        refl,
        save-row i s d' (record d' { status = WebhookDeliveryStatus.retrying }) h refl,
        (refl, n, ground arith, m, e, refl),
      )
    ]

delivered-IsFinal : (status : WebhookDeliveryStatus) → is_delivered status ≡ true → IsFinal status
delivered-IsFinal WebhookDeliveryStatus.delivered h = tt
delivered-IsFinal WebhookDeliveryStatus.pending h = ground arith
delivered-IsFinal WebhookDeliveryStatus.retrying h = ground arith
delivered-IsFinal WebhookDeliveryStatus.dead_letter h = ground arith

-- The rest of an attempt, once its answer is in the row.
after_answer-Attempted :
    (success : Bool) (i : ℕ) (s : Store) (d d' : WebhookDelivery)
    → row_of i s ≡ some d'
    → d'.attempt_count ≡ d.attempt_count + 1
    → d'.max_attempts ≡ d.max_attempts
    → d'.id ≡ d.id
    → (success ≡ true → IsFinal d'.status)
    → Attempted i d ((if success then pure returns else after_failure d') s)
unfolding ◌>>=◌
after_answer-Attempted true i s d d' h n m e final =
    (returns, d', refl, h, (final refl, omega arith))
after_answer-Attempted false i s d d' h n m e final = after_failure-Attempted i s d d' h n m e

take_answer-fields :
    (now : ℕ) (answer : HttpAnswer) (d : WebhookDelivery)
    → ((take_answer now answer d).1.attempt_count ≡ d.attempt_count + 1)
      × ((take_answer now answer d).1.max_attempts ≡ d.max_attempts)
      × ((take_answer now answer d).1.id ≡ d.id)
unfolding take_answer
take_answer-fields now (raises text) d = (refl, refl, refl)
take_answer-fields now (responds status_code text) d = (refl, refl, refl)

take_answer-IsFinal :
    (now : ℕ) (answer : HttpAnswer) (d : WebhookDelivery)
    → (take_answer now answer d).0 ≡ true
    → IsFinal (take_answer now answer d).1.status
unfolding take_answer
take_answer-IsFinal now (raises text) d h = ground arith
take_answer-IsFinal now (responds status_code text) d h = rw (h) tt

attempt_delivery-Attempted :
    (wire : Wire) (post : HttpRequest → HttpAnswer) (i : ℕ) (s : Store) (d : WebhookDelivery)
    → row_of i s ≡ some d
    → Attempted i d (attempt_delivery wire post d s)
unfolding attempt_delivery perform_delivery ◌>>=◌
attempt_delivery-Attempted wire post i s d h =
    let answer = post (build_request wire s.now d) in
    let (n, m, e) = take_answer-fields s.now answer d in
    let (success, d') = take_answer s.now answer d in
    after_answer-Attempted success i (save_delivery d' s).1 d d' (save-row i s d d' h e) n m e
      (take_answer-IsFinal s.now answer d)

-- A run that finds the delivery ends, and leaves it attempted once more or over.
deliver_webhook-Attempted :
    (wire : Wire) (post : HttpRequest → HttpAnswer) (i : ℕ) (s : Store) (d : WebhookDelivery)
    → row_of i s ≡ some d
    → Attempted i d (deliver_webhook wire post i s)
unfolding deliver_webhook deliver_found ◌>>=◌
deliver_webhook-Attempted wire post i s d h = elim (Bool-cases (is_delivered d.status)) [
  | inl over ↦ rw (h, over) (returns, d, refl, h, (delivered-IsFinal d.status over, omega arith))
  | inr open_one ↦ rw (h, open_one) (attempt_delivery-Attempted wire post i s d h)
]

abbrev pub Over : ℕ → ℕ → Store → Type 0
Over i most s =
    (d : WebhookDelivery) × (row_of i s ≡ some d) × IsFinal d.status × (d.attempt_count ≤ most)

-- However the network answers, the runs for a delivery end, where attempts are left, and a retry for
-- each of them but one: after at most as many runs as attempts were left, the delivery is delivered
-- or a dead letter, and it was attempted at most `max_attempts` times.
pub run_deliveries-ends :
    (wire : Wire) (i left : ℕ) (posts : List (HttpRequest → HttpAnswer)) (s : Store)
    (d : WebhookDelivery)
    → row_of i s ≡ some d
    → d.attempt_count < d.max_attempts
    → d.max_attempts ≤ d.attempt_count + length posts
    → d.max_attempts ≤ d.attempt_count + left + 1
    → Over i d.max_attempts (run_deliveries wire i left posts s)
unfolding run_deliveries length
run_deliveries-ends wire i left [] s d h open_one enough tries = ground arith
run_deliveries-ends wire i left (post ∷ posts) s d h open_one enough tries =
    by_end (deliver_webhook-Attempted wire post i s d h)
      (run_deliveries-ends wire i (left - 1) posts (deliver_webhook wire post i s).1)
  where
    by_end :
        Attempted i d (deliver_webhook wire post i s)
        → ((d' : WebhookDelivery)
            → row_of i (deliver_webhook wire post i s).1 ≡ some d'
            → d'.attempt_count < d'.max_attempts
            → d'.max_attempts ≤ d'.attempt_count + length posts
            → d'.max_attempts ≤ d'.attempt_count + (left - 1) + 1
            → Over i d'.max_attempts
                (run_deliveries wire i (left - 1) posts (deliver_webhook wire post i s).1))
        → Over i d.max_attempts (run_deliveries wire i left (post ∷ posts) s)
    by_end (returns, d', r, h', (final, le)) later =
        rw (run_deliveries, r) (d', h', final, ground arith)
    by_end (retries seconds, d', r, h', (status, n, lt, m, e, c)) later =
        let (d'', h'', final, le) = later d' h' (rw (m) lt) (ground arith) (ground arith) in
        let some_left : (left == 0) ≡ false = ground arith in
        rw (run_deliveries, r, some_left) (d'', h'', final, ground arith)

pow-pos : (n : ℕ) → 1 ≤ 2 ^ n
pow-pos zero = omega arith
pow-pos (suc n) = rw (pow.suc 2 n) (omega (arith, pow-pos n))

retry_countdown-bounds : (n : ℕ) → 1 ≤ n → (10 ≤ retry_countdown n) × (retry_countdown n ≤ 300)
unfolding retry_countdown
retry_countdown-bounds zero h = ground arith
retry_countdown-bounds (suc n) h = rw (pow.suc 2 n) (ground (arith, pow-pos n))

Attempted-bounds :
    (i : ℕ) (d : WebhookDelivery) (run : Result TaskEnd × Store)
    → Attempted i d run
    → (seconds : ℕ) → run.0 ≡ ok (retries seconds)
    → (10 ≤ seconds) × (seconds ≤ 300)
Attempted-bounds i d run (returns, d', r, h', final) seconds h = ground arith
Attempted-bounds i d run (retries c, d', r, h', (status, n, lt, m, e, same)) seconds h =
    ground (arith, retry_countdown-bounds d'.attempt_count)

-- A run that asks for another asks for it after at least 10 seconds and at most 5 minutes.
pub deliver_webhook-backoff :
    (wire : Wire) (post : HttpRequest → HttpAnswer) (i seconds : ℕ) (s : Store)
    → (deliver_webhook wire post i s).0 ≡ ok (retries seconds)
    → (10 ≤ seconds) × (seconds ≤ 300)
unfolding deliver_webhook deliver_found ◌>>=◌
deliver_webhook-backoff wire post i seconds s h = elim (Option-cases (row_of i s)) [
  | inl missing ↦ ground arith
  | inr (d, found) ↦
      Attempted-bounds i d (deliver_webhook wire post i s)
        (deliver_webhook-Attempted wire post i s d found) seconds h
]
