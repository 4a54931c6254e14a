-- ===== src/Payments/Timeouts.antt =====
-- A provider that does not answer in time.
use kusanya.Base.{
  ℕ, Option, false, List, ◌∷◌, ==_iff, ap, arith, String, none, some, ◌≡◌, refl, str_eq, Bool-cases,
  inl, inr,
}
use kusanya.Base.Table.{first, exists, update}
use kusanya.Core.Result.{Result, ok, err, provider_timeout}
use kusanya.Providers.Interface.{Registry, PaymentProviderAdapter, InitiateRequest}
use kusanya.Providers.Models.{Sandbox}
use kusanya.Payments.Models.{
  Payment, store_status, PaymentStatus, unknown, enter_status, allowed_transitions,
}
use kusanya.Payments.Status.{transition_to, has_id}
use kusanya.Payments.Services.{
  Initiation, initiate_payment, start_payment, deduplicate, create_payment, insert_payment,
  new_payment, refused, conflicts, has_key, get_adapter, attempt, handle_answer, after_timeout,
  request_of, timeout_reason,
}
use kusanya.Payments.Outcome.{audit_payment}
use kusanya.Store.{Store}
use kusanya.Store.Action.{ask, draw, ◌>>=◌, record_audit_event}

abbrev status_of : Option Payment → Option PaymentStatus
status_of none = none
status_of (some p) = some p.status

-- The status that the row of a payment has in the database.
abbrev pub kept_status : ℕ → Store → Option PaymentStatus
kept_status i s = status_of (first (has_id i) s.payments.rows)

-- The payment that the caller gets, its row, and what was recorded besides its row and the audit log.
pub record IsLeftUnknown (s : Store) (x : Result Payment × Store) : Type 0 where
  pub payment : Payment
  pub answered : x.0 ≡ ok payment
  pub status : payment.status ≡ unknown
  pub row : kept_status payment.id x.1 ≡ some unknown
  pub ledger : x.1.ledger ≡ s.ledger
  pub revenue : x.1.revenue ≡ s.revenue
  pub receipts : x.1.receipts ≡ s.receipts
  pub allocations : x.1.allocations ≡ s.allocations

-- A write to the newest row is read back.
written :
    (p : Payment) (f : Payment → Payment) (rows : List Payment)
    → (f p).id ≡ p.id
    → first (has_id p.id) (update (has_id p.id) f (p ∷ rows)) ≡ some (f p)
unfolding first update
written p f rows same =
    ground (arith, same, (==_iff p.id p.id).1 refl, (==_iff (f p).id p.id).1 same)

module _ (registry : Registry) (r : Initiation) (adapter : PaymentProviderAdapter) (s : Store)
    (known : registry r.provider.code ≡ some adapter) (message : String)
    (late : (req : InitiateRequest) (w : Sandbox)
      → (adapter.initiate_payment req w).0 ≡ err (provider_timeout message))
    (fresh : exists (conflicts (new_payment r s (s.uuids 0) s.payments.next)) s.payments.rows
      ≡ false)
    (fits : refused (new_payment r s (s.uuids 0) s.payments.next) ≡ none) where
  abbrev created : Payment
  created = new_payment r s (s.uuids 0) s.payments.next

  start_payment-IsLeftUnknown : IsLeftUnknown s (start_payment registry r s)
  unfolding store_status start_payment create_payment insert_payment draw get_adapter attempt ask
      handle_answer after_timeout transition_to enter_status allowed_transitions audit_payment
      record_audit_event ◌>>=◌
  start_payment-IsLeftUnknown =
      rw (fits, fresh, known, late (request_of r created) s.sandbox)
        (record {
          payment = enter_status s.now unknown timeout_reason created;
          answered = refl;
          status = refl;
          row = ap status_of (
              written created (store_status (enter_status s.now unknown timeout_reason created))
                s.payments.rows refl);
          ledger = refl;
          revenue = refl;
          receipts = refl;
          allocations = refl;
        })

  -- A provider that times out leaves the new payment, and its row, UNKNOWN, never FAILED: the call
  -- answers with it, and posts no ledger entry, no revenue event, no receipt and no allocation. The
  -- idempotency key, if one is given, and the drawn reference are new, and they and the payer's
  -- reference fit their columns.
  pub initiate_payment-timeout :
      (str_eq r.idempotency_key "" ≡ false
        → first (has_key r.tenant.id r.idempotency_key) s.payments.rows ≡ none)
      → IsLeftUnknown s (initiate_payment registry r s)
  unfolding initiate_payment deduplicate ◌>>=◌
  initiate_payment-timeout new_key = elim (Bool-cases (str_eq r.idempotency_key "")) [
    | inl blank ↦ rw blank start_payment-IsLeftUnknown
    | inr given ↦ rw (given, new_key given) start_payment-IsLeftUnknown
  ]
