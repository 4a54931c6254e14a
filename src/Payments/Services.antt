-- ===== src/Payments/Services.antt =====
-- apps/payments/services.py: the orchestrator's entry points. An adapter comes from the registry,
-- which is a parameter.
use Prim.Native.String.{◌++◌, count}
use kusanya.Base.{
  ℕ, String, Bool, true, Option, none, some, [], ◌&&◌, ◌||◌, ◌==◌, str_eq, not, ltb, if◌then◌else◌,
}
use kusanya.Base.Int.{ℤ}
use kusanya.Base.Table.{insert, first, exists}
use kusanya.Core.Result.{
  Result, Error, ok, err, unless, integrity, value_error, data_error, provider_error,
  provider_timeout, invalid_signature,
}
use kusanya.Tenants.Models.{Tenant}
use kusanya.ControlNumbers.Models.{ControlNumber}
use kusanya.Providers.Models.{PaymentProvider, PaymentChannel}
use kusanya.Providers.Interface.{
  Registry, PaymentProviderAdapter, ProviderResult, InitiateRequest, Metadata,
}
use kusanya.Revenue.Services.{record_payment_failed}
use kusanya.Notifications.Models.{NotificationEventType}
use kusanya.Payments.Models.{Payment, initiated, failed, unknown}
use kusanya.Payments.Status.{transition_to, set_reference}
use kusanya.Payments.Messages.{notify}
use kusanya.Payments.Outcome.{audit_payment, apply_outcome}
use kusanya.Store.{Store}
use kusanya.Store.Action.{Action, pure, raise, gets, ask, draw, or_raise, ◌>>=◌, ◌>>◌}

-- The arguments of `initiate_payment`.
pub record Initiation : Type 0 where
  pub tenant : Tenant
  pub control_number : ControlNumber
  pub provider : PaymentProvider
  pub channel : Option PaymentChannel
  pub amount : ℤ
  pub payer_reference : String
  pub idempotency_key : String
  pub actor : Option ℕ
  pub metadata : Metadata

-- `tenant=tenant, idempotency_key=idempotency_key`
abbrev pub has_key : ℕ → String → Payment → Bool
has_key tenant key p = (p.tenant.id == tenant) && str_eq p.idempotency_key key

-- What the unique columns of `Payment` refuse: a merchant reference, and a key of the tenant that
-- is not blank.
abbrev pub conflicts : Payment → Payment → Bool
conflicts new p =
    if str_eq p.merchant_reference new.merchant_reference
    then true
    else not (str_eq new.idempotency_key "") && has_key new.tenant.id new.idempotency_key p

abbrev pub new_payment : Initiation → Store → String → ℕ → Payment
new_payment r s uuid id = record {
  id = id;
  tenant = r.tenant;
  control_number = r.control_number;
  provider = r.provider;
  channel = r.channel;
  status = initiated;
  amount = r.amount;
  currency = r.tenant.default_currency;
  payer_reference = r.payer_reference;
  merchant_reference = "PAY-" ++ uuid;
  provider_reference = "";
  idempotency_key = r.idempotency_key;
  initiated_at = s.now;
  completed_at = none;
  failure_reason = "";
  settlement_batch = none;
}

-- What the columns of `Payment` refuse: the encrypted `payer_reference` before the row is sent, by
-- its `max_length`, and the other texts in the database.
unfoldable pub refused : Payment → Option Error
refused p =
    if ltb 100 (count p.payer_reference)
    then some value_error
    else if ltb 100 (count p.idempotency_key) || ltb 64 (count p.merchant_reference)
    then some data_error
    else none

-- `Payment.objects.create`, under the unique constraints.
unfoldable pub insert_payment : (ℕ → Payment) → Action Payment
insert_payment row s =
    let written =
      if exists (conflicts (row s.payments.next)) s.payments.rows
      then (err integrity, s)
      else (ok (row s.payments.next), record s { payments = insert s.payments row }) in
    unless (refused (row s.payments.next)) written s

unfoldable pub create_payment : Initiation → Action Payment
unfolding draw insert_payment
create_payment r = do uuid ← draw; s ← gets (λ s. s); insert_payment (new_payment r s uuid)

abbrev pub timeout_reason : String
timeout_reason =
    "Provider request timed out; status must be confirmed via query_payment before any further action."

-- The two `except` clauses of `initiate_payment`, and the rest of it after the provider's answer.
unfoldable pub after_timeout : Option ℕ → Payment → Action Payment
unfolding transition_to audit_payment
after_timeout actor p = do
  p' ← transition_to p unknown timeout_reason
  audit_payment "payment.unknown" actor p'
  pure p'

unfoldable pub after_provider_error : Option ℕ → Payment → String → Action Payment
unfolding transition_to audit_payment record_payment_failed notify
after_provider_error actor p message = do
  p' ← transition_to p failed message
  audit_payment "payment.failed" actor p'
  record_payment_failed p'
  notify p' NotificationEventType.payment_failed []
  pure p'

unfoldable pub after_answer : Option ℕ → Payment → ProviderResult → Action Payment
unfolding set_reference
after_answer actor p result = do
  p' ← set_reference p result.provider_reference
  apply_outcome p' result.outcome actor

unfoldable pub handle_answer : Option ℕ → Payment → Result ProviderResult → Action Payment
unfolding after_timeout after_provider_error after_answer
handle_answer actor p (ok result) = after_answer actor p result
handle_answer actor p (err (provider_timeout m)) = after_timeout actor p
handle_answer actor p (err (provider_error m)) = after_provider_error actor p m
handle_answer actor p (err (invalid_signature m)) = after_provider_error actor p m
handle_answer actor p (err e) = raise e

-- `try` around a call of the provider: the answer or the exception, as a value.
unfoldable pub attempt : {A : Type 0} → Action A → Action (Result A)
attempt m s = let (r, s') = m s in (ok r, s')

abbrev pub request_of : Initiation → Payment → InitiateRequest
request_of r p = record {
  amount = r.amount;
  currency = p.currency;
  control_number = r.control_number.value;
  payer_reference = r.payer_reference;
  merchant_reference = p.merchant_reference;
  metadata = r.metadata;
}

abbrev no_adapter : String → String
no_adapter code =
    "No adapter registered for provider code '"
    ++ (code
        ++ "'. Real provider adapters are only added once official API documentation and credentials exist for that provider — see docs/PAYMENT_PROVIDER_ARCHITECTURE.md.")

module _ (registry : Registry) where
  -- `get_adapter` (apps/providers/registry.py)
  unfoldable pub get_adapter : PaymentProvider → Action PaymentProviderAdapter
  get_adapter provider =
      or_raise (registry provider.code) (provider_error (no_adapter provider.code))

  unfoldable pub start_payment : Initiation → Action Payment
  unfolding create_payment audit_payment get_adapter attempt ask handle_answer
  start_payment r = do
    p ← create_payment r
    audit_payment "payment.initiated" r.actor p
    adapter ← get_adapter r.provider
    answer ← attempt (ask (adapter.initiate_payment (request_of r p)))
    handle_answer r.actor p answer

  -- The branch on `existing`: a payment that was found is returned, and the provider not asked.
  unfoldable pub deduplicate : Initiation → Option Payment → Action Payment
  unfolding start_payment audit_payment
  deduplicate r none = start_payment r
  deduplicate r (some existing) = do
    audit_payment "payment.initiation_deduplicated" r.actor existing
    pure existing

  -- `initiate_payment`
  unfoldable pub initiate_payment : Initiation → Action Payment
  unfolding deduplicate
  initiate_payment r = if str_eq r.idempotency_key "" then start_payment r else (do
    existing ← gets (λ s. first (has_key r.tenant.id r.idempotency_key) s.payments.rows)
    deduplicate r existing)

  abbrev pub learn_reference : Payment → String → Action Payment
  learn_reference p reference =
      if not (str_eq reference "") && str_eq p.provider_reference ""
      then set_reference p reference
      else pure p

  -- `query_payment`
  unfoldable pub query_payment : Payment → Option ℕ → Action Payment
  unfolding get_adapter ask set_reference audit_payment
  query_payment p actor = do
    adapter ← get_adapter p.provider
    result ← ask (adapter.query_payment p.merchant_reference)
    p' ← learn_reference p result.provider_reference
    audit_payment "payment.queried" actor p'
    apply_outcome p' result.outcome actor
