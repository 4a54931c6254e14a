-- ===== src/Payments/Repeats.antt =====
-- Outcomes that are applied again.
use kusanya.Base.{
  ℕ, Bool, true, false, String, Option, ◌≡◌, refl, ◌∷◌, [], arith, ◌==◌, if◌then◌else◌,
}
use kusanya.Core.Result.{Result, ok, err}
use kusanya.Providers.Models.{ProviderOutcome}
use kusanya.Payments.Models.{
  Payment, PaymentStatus, tag, status_in, enter_status, initiated, pending, successful, failed,
  unknown,
}
use kusanya.Payments.Status.{transition_to}
use kusanya.Payments.Outcome.{
  apply_outcome, apply_status, apply_unknown, after_transition, outcome_to_status, audit_payment,
}
use kusanya.Store.{Store}
use kusanya.Store.Action.{Action, pure, continue, ◌>>=◌, ◌>>◌}

-- What a block that answered went through.
bind-eq-ok :
    {A B : Type 0} (m : Action A) (f : A → Action B) (s : Store) {b : B} {t : Store}
    → (m >>= f) s ≡ (ok b, t)
    → (a : A) × (u : Store) × (m s ≡ (ok a, u)) × (f a u ≡ (ok b, t))
unfolding ◌>>=◌
bind-eq-ok {A} {B} m f s {b} {t} h = ended (m s).0 (m s).1 refl h
  where
    ended :
        (r : Result A) (u : Store)
        → m s ≡ (r, u)
        → continue r f u ≡ (ok b, t)
        → (a : A) × (v : Store) × (m s ≡ (ok a, v)) × (f a v ≡ (ok b, t))
    ended (ok a) u e k = (a, u, e, k)
    ended (err x) u e k = absurd (ground (arith, k))

-- A transition that answers has put the payment in the new status.
transition_to-status :
    (p : Payment) (st : PaymentStatus) (reason : String) (s : Store) {q : Payment} {t : Store}
    → transition_to p st reason s ≡ (ok q, t)
    → q.status ≡ st
unfolding transition_to enter_status
transition_to-status p st reason s h = ground arith

apply_status-status :
    (p : Payment) (target : PaymentStatus) (actor : Option ℕ) (s : Store) {q : Payment} {t : Store}
    → apply_status p target actor s ≡ (ok q, t)
    → (tag q.status == tag target) ≡ true
unfolding apply_status
apply_status-status p target actor s {q} {t} h = by_test (tag p.status == tag target) refl h
  where
    by_test :
        (b : Bool)
        → (tag p.status == tag target) ≡ b
        → (if b
              then pure p
              else (do p' ← transition_to p target ""; after_transition target actor p'; pure p'))
            s
          ≡ (ok q, t)
        → (tag q.status == tag target) ≡ true
    by_test true e k = unfold pure in ground (arith, e, k)
    by_test false e k =
        let (p', u, moved, rest) = bind-eq-ok (transition_to p target "") _ s k in
        let (x, v, told, answer) = bind-eq-ok (after_transition target actor p') _ u rest in
        let st = transition_to-status p target "" s moved in
        unfold pure in ground (arith, st, answer)

apply_unknown-again :
    (p : Payment) (actor : Option ℕ) (s : Store) {q : Payment} {t : Store}
    → apply_unknown p actor s ≡ (ok q, t)
    → status_in q.status (initiated ∷ pending ∷ []) ≡ false
unfolding apply_unknown
apply_unknown-again p actor s {q} {t} h =
    by_test (status_in p.status (initiated ∷ pending ∷ [])) refl h
  where
    by_test :
        (b : Bool)
        → status_in p.status (initiated ∷ pending ∷ []) ≡ b
        → (if b
              then (do
                p' ← transition_to p unknown ""
                audit_payment "payment.unknown" actor p'
                pure p')
              else pure p)
            s
          ≡ (ok q, t)
        → status_in q.status (initiated ∷ pending ∷ []) ≡ false
    by_test false e k = unfold pure in ground (arith, e, k)
    by_test true e k =
        let (p', u, moved, rest) = bind-eq-ok (transition_to p unknown "") _ s k in
        let (x, v, told, answer) = bind-eq-ok (audit_payment "payment.unknown" actor p') _ u rest in
        let st = transition_to-status p unknown "" s moved in
        unfold pure in ground (arith, st, answer)

settled_again :
    (q : Payment) (target : PaymentStatus) (actor : Option ℕ) (t : Store)
    → (tag q.status == tag target) ≡ true
    → apply_status q target actor t ≡ (ok q, t)
unfolding apply_status pure
settled_again q target actor t e = rw e

-- An outcome that was applied once, with an answer, changes nothing at all when it is applied again
-- to the payment that came back: no row, no fee, no ledger entry, no message, no audit event. It
-- holds for all four outcomes.
pub apply_outcome-again :
    (p : Payment) (o : ProviderOutcome) (actor again : Option ℕ) (s : Store) {q : Payment}
    {t : Store}
    → apply_outcome p o actor s ≡ (ok q, t)
    → apply_outcome q o again t ≡ (ok q, t)
unfolding apply_outcome outcome_to_status
apply_outcome-again p ProviderOutcome.successful actor again s {q} {t} h =
    settled_again q successful again t (apply_status-status p successful actor s h)
apply_outcome-again p ProviderOutcome.failed actor again s {q} {t} h =
    settled_again q failed again t (apply_status-status p failed actor s h)
apply_outcome-again p ProviderOutcome.pending actor again s {q} {t} h =
    settled_again q pending again t (apply_status-status p pending actor s h)
apply_outcome-again p ProviderOutcome.unknown actor again s {q} {t} h =
    unfold apply_unknown pure in rw (apply_unknown-again p actor s h)
