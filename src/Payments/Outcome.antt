-- ===== src/Payments/Outcome.antt =====
-- apps/payments/services.py: `_apply_outcome` and what it sets off.
use kusanya.Base.{ℕ, String, Option, none, some, [], ◌∷◌, ◌==◌, if◌then◌else◌}
use kusanya.Base.Int.{ℤ, pos, leb_ℤ}
use kusanya.Base.Table.{insert}
use kusanya.Core.Objects
use kusanya.Billing.Models.{Bill, BillStatus, PaymentAllocation}
use kusanya.Billing.Models
use kusanya.Billing.Account.{bill_of, balance}
use kusanya.Billing.Account
use kusanya.Ledger.Models.{payment_received, institution_entitlement, customer, institution}
use kusanya.Ledger.Services.{post_entry}
use kusanya.Revenue.Services.{record_payment_successful, record_payment_failed}
use kusanya.Receipts.Services.{generate_receipt}
use kusanya.Notifications.Models.{NotificationEventType}
use kusanya.Providers.Models.{ProviderOutcome}
use kusanya.Payments.Models.{
  Payment, PaymentStatus, tag, status_in, initiated, pending, successful, failed, unknown,
}
use kusanya.Payments.Status.{transition_to}
use kusanya.Payments.Messages.{dispatch, notify, notify_payment_successful}
use kusanya.Store.Action.{Action, ⊤, pure, modify, gets, record_audit_event, ◌>>=◌, ◌>>◌}

-- `record_audit_event` on a payment.
unfoldable pub audit_payment : String → Option ℕ → Payment → Action ⊤
unfolding record_audit_event
audit_payment action actor p =
    record_audit_event action actor (some p.tenant.id) (some (Objects.payment p.id))

-- `_post_settlement_ledger_entries`
unfoldable pub post_settlement_ledger_entries : Payment → Action ⊤
unfolding post_entry
post_settlement_ledger_entries p = do
  post_entry p.tenant payment_received customer p.amount p.currency p.merchant_reference
      (some (Objects.payment p.id)) none
  post_entry p.tenant institution_entitlement institution p.amount p.currency p.merchant_reference
      (some (Objects.payment p.id)) none
  pure tt

-- `PaymentAllocation.objects.create(...)` for the full amount.
unfoldable pub create_allocation : Payment → Bill → Action ⊤
create_allocation p b = modify (λ s. record s {
  allocations =
      insert s.allocations (λ id. record {
        id = id;
        tenant = p.tenant;
        payment = p.id;
        bill = b.id;
        amount = p.amount;
      });
})

-- The status of the bill after an allocation: `PAID` once nothing is left, and `PARTIALLY_PAID`
-- after the first part.
unfoldable pub settle_by : ℤ → Bill → Action ⊤
unfolding Account.transition_to
settle_by rest b =
    if Models.status_in b.status (BillStatus.active ∷ BillStatus.partially_paid ∷ [])
    then if leb_ℤ rest (pos 0)
      then Account.transition_to b BillStatus.paid >> pure tt
      else if Models.tag b.status == Models.tag BillStatus.active
      then Account.transition_to b BillStatus.partially_paid >> pure tt
      else pure tt
    else pure tt

unfoldable pub settle_bill : Bill → Action ⊤
unfolding settle_by
settle_bill b = do rest ← gets (λ s. balance s.allocations.rows b); settle_by rest b

unfoldable pub allocate_to : Payment → Option Bill → Action ⊤
unfolding create_allocation settle_bill
allocate_to p none = pure tt
allocate_to p (some b) = do create_allocation p b; settle_bill b

-- `_allocate_to_bill`
unfoldable pub allocate_to_bill : Payment → Action ⊤
unfolding bill_of allocate_to
allocate_to_bill p = do bill ← bill_of p.control_number.owner; allocate_to p bill

-- `OUTCOME_TO_STATUS`, with no entry for `UNKNOWN`.
unfoldable pub outcome_to_status : ProviderOutcome → Option PaymentStatus
outcome_to_status ProviderOutcome.successful = some successful
outcome_to_status ProviderOutcome.failed = some failed
outcome_to_status ProviderOutcome.pending = some pending
outcome_to_status ProviderOutcome.unknown = none

-- The branches of `_apply_outcome` after the transition.
-- From `_allocate_to_bill` on: the bill, the receipt and the messages.
unfoldable pub settle_success : Payment → Action ⊤
unfolding allocate_to_bill notify_payment_successful dispatch
settle_success p = do
  allocate_to_bill p
  receipt ← generate_receipt p
  notify_payment_successful p receipt
  dispatch p "payment.successful"

unfoldable pub after_successful : Option ℕ → Payment → Action ⊤
unfolding audit_payment post_settlement_ledger_entries record_payment_successful
after_successful actor p = do
  audit_payment "payment.successful" actor p
  post_settlement_ledger_entries p
  record_payment_successful p
  settle_success p

unfoldable pub after_failed : Option ℕ → Payment → Action ⊤
unfolding audit_payment record_payment_failed notify dispatch
after_failed actor p = do
  audit_payment "payment.failed" actor p
  record_payment_failed p
  notify p NotificationEventType.payment_failed []
  dispatch p "payment.failed"

unfoldable pub after_pending : Option ℕ → Payment → Action ⊤
unfolding audit_payment notify dispatch
after_pending actor p = do
  audit_payment "payment.pending" actor p
  notify p NotificationEventType.payment_pending []
  dispatch p "payment.pending"

unfoldable pub after_transition : PaymentStatus → Option ℕ → Payment → Action ⊤
after_transition successful actor p = after_successful actor p
after_transition failed actor p = after_failed actor p
after_transition pending actor p = after_pending actor p
after_transition _ actor p = pure tt

-- The `UNKNOWN` branch: only a payment that has not settled is marked.
unfoldable pub apply_unknown : Payment → Option ℕ → Action Payment
unfolding transition_to audit_payment
apply_unknown p actor =
    if status_in p.status (initiated ∷ pending ∷ [])
    then (do p' ← transition_to p unknown ""; audit_payment "payment.unknown" actor p'; pure p')
    else pure p

-- The rest of `_apply_outcome`: an outcome that was already applied changes nothing.
unfoldable pub apply_status : Payment → PaymentStatus → Option ℕ → Action Payment
unfolding transition_to after_transition
apply_status p target actor =
    if tag p.status == tag target
    then pure p
    else (do p' ← transition_to p target ""; after_transition target actor p'; pure p')

-- `_apply_outcome`. The payment that the caller holds is changed: it is the result.
unfoldable pub apply_outcome : Payment → ProviderOutcome → Option ℕ → Action Payment
unfolding outcome_to_status apply_unknown apply_status
apply_outcome p outcome actor = elim (outcome_to_status outcome) [
  | none ↦ apply_unknown p actor
  | some target ↦ apply_status p target actor
]
