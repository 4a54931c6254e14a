-- ===== src/Payments/Callbacks.antt =====
-- apps/payments/services.py: `process_callback`.
use kusanya.Base.{ℕ, String, Bool, Option, none, some, List, ◌&&◌, ◌==◌, str_eq, not, if◌then◌else◌}
use kusanya.Base.Table.{insert, first, exists, update, put_rows}
use kusanya.Core.Result.{Result, ok, err, integrity, invalid_signature}
use kusanya.Core.Objects
use kusanya.Providers.Models.{PaymentProvider}
use kusanya.Providers.Interface.{Registry, ProviderCallbackResult, Metadata}
use kusanya.Revenue.Services.{record_payment_duplicate}
use kusanya.Payments.Models.{
  Payment, PaymentCallbackEvent, CallbackOutcome, processed, duplicate, unmatched,
}
use kusanya.Payments.Status.{has_id}
use kusanya.Payments.Outcome.{apply_outcome}
use kusanya.Payments.Services.{get_adapter, attempt}
use kusanya.Store.{Store}
use kusanya.Store.Action.{Action, ⊤, pure, raise, gets, ask, record_audit_event, ◌>>=◌, ◌>>◌}

-- `provider=provider, external_event_id=...`
abbrev pub is_delivery : ℕ → String → PaymentCallbackEvent → Bool
is_delivery provider event_id e = (e.provider.id == provider) && str_eq e.external_event_id event_id

-- What the constraint `unique_provider_callback_event` refuses; it leaves blank ids alone.
abbrev pub is_taken : ℕ → String → List PaymentCallbackEvent → Bool
is_taken provider event_id rows =
    not (str_eq event_id "") && exists (is_delivery provider event_id) rows

-- `PaymentCallbackEvent.objects.create(...)`
unfoldable pub create_event :
    PaymentProvider → String → Option ℕ → CallbackOutcome → Action PaymentCallbackEvent
create_event provider event_id payment outcome s =
    let row : ℕ → PaymentCallbackEvent = λ id. record {
      id = id;
      provider = provider;
      external_event_id = event_id;
      payment = payment;
      outcome = outcome;
    } in
    if is_taken provider.id event_id s.callback_events.rows then (err integrity, s) else (
      ok (row s.callback_events.next),
      record s { callback_events = insert s.callback_events row },
    )

-- `event.outcome = ...; event.payment = ...; event.save(...)`
unfoldable pub save_event : PaymentCallbackEvent → Action PaymentCallbackEvent
save_event e s = (
  ok e,
  record s {
    callback_events = put_rows s.callback_events (
        update (λ (row : PaymentCallbackEvent). row.id == e.id)
          (λ row. record row { outcome = e.outcome; payment = e.payment }) s.callback_events.rows);
  },
)

unfoldable pub audit_event : String → Option ℕ → Option ℕ → PaymentCallbackEvent → Action ⊤
unfolding record_audit_event
audit_event action actor tenant e =
    record_audit_event action actor tenant (some (Objects.callback_event e.id))

unfoldable pub reject_signature : PaymentProvider → Option ℕ → Action PaymentCallbackEvent
unfolding create_event audit_event
reject_signature provider actor = do
  event ← create_event provider "" none CallbackOutcome.invalid_signature
  audit_event "payment.callback_invalid_signature" actor none event
  pure event

-- `original.payment`, the row that the first delivery was matched to.
abbrev pub payment_of : Option PaymentCallbackEvent → Store → Option Payment
payment_of none s = none
payment_of (some e) s = elim e.payment [ none ↦ none | some i ↦ first (has_id i) s.payments.rows ]

abbrev pub id_of : Option Payment → Option ℕ
id_of none = none
id_of (some p) = some p.id

abbrev pub tenant_of : Option Payment → Option ℕ
tenant_of none = none
tenant_of (some p) = some p.tenant.id

unfoldable pub charge_nothing : Option Payment → Action ⊤
unfolding record_payment_duplicate
charge_nothing none = pure tt
charge_nothing (some p) = do record_payment_duplicate p; pure tt

-- The `except IntegrityError` branch: the repeated delivery is logged under a blank id.
unfoldable pub log_duplicate :
    PaymentProvider → ProviderCallbackResult → Option ℕ → Action PaymentCallbackEvent
unfolding create_event audit_event charge_nothing
log_duplicate provider parsed actor = do
  original ←
      gets (λ s. first (is_delivery provider.id parsed.external_event_id) s.callback_events.rows)
  paid ← gets (payment_of original)
  dup ← create_event provider "" (id_of paid) duplicate
  audit_event "payment.callback_duplicate" actor (tenant_of paid) dup
  charge_nothing paid
  pure dup

-- The payment that was found takes the outcome; without one the event is unmatched.
unfoldable pub settle_event :
    PaymentCallbackEvent
    → ProviderCallbackResult
    → Option ℕ
    → Option Payment
    → Action PaymentCallbackEvent
unfolding save_event audit_event
settle_event event parsed actor none = do
  event' ← save_event (record event { outcome = unmatched })
  audit_event "payment.callback_unmatched" actor none event'
  pure event'
settle_event event parsed actor (some p) = do
  event' ← save_event (record event { payment = some p.id })
  apply_outcome p parsed.outcome actor
  pure event'

-- `provider_reference=parsed.provider_reference`: the provider is not looked at.
abbrev pub has_reference : String → Payment → Bool
has_reference reference p = str_eq p.provider_reference reference

unfoldable pub match_event :
    PaymentCallbackEvent → ProviderCallbackResult → Option ℕ → Action PaymentCallbackEvent
unfolding settle_event
match_event event parsed actor = do
  found ← gets (λ s. first (has_reference parsed.provider_reference) s.payments.rows)
  settle_event event parsed actor found

-- `process_callback` once the payload is verified and parsed. The row is created in a savepoint of
-- its own, and a refused row has written nothing.
unfoldable pub record_callback :
    PaymentProvider → ProviderCallbackResult → Option ℕ → Action PaymentCallbackEvent
unfolding create_event log_duplicate match_event
record_callback provider parsed actor = do
  taken ← gets (λ s. is_taken provider.id parsed.external_event_id s.callback_events.rows)
  if taken then log_duplicate provider parsed actor else do
    event ← create_event provider parsed.external_event_id none processed
    match_event event parsed actor

unfoldable pub handle_callback :
    PaymentProvider → Option ℕ → Result ProviderCallbackResult → Action PaymentCallbackEvent
unfolding reject_signature record_callback
handle_callback provider actor (ok parsed) = record_callback provider parsed actor
handle_callback provider actor (err (invalid_signature m)) = reject_signature provider actor
handle_callback provider actor (err e) = raise e

-- `process_callback`
unfoldable pub process_callback :
    Registry → PaymentProvider → String → Metadata → Option ℕ → Action PaymentCallbackEvent
unfolding get_adapter attempt ask handle_callback
process_callback registry provider raw_payload headers actor = do
  adapter ← get_adapter registry provider
  parsed ← attempt (ask (adapter.process_callback raw_payload headers))
  handle_callback provider actor parsed
