-- ===== src/Settlement/Services.antt =====
-- apps/settlement/services.py
use Prim.Native.String.{◌++◌}
use kusanya.Base.{
  ℕ, String, Bool, false, Option, none, some, List, [], ◌∷◌, ◌&&◌, ◌==◌, str_eq, not, ltb, leb,
  is_some, if◌then◌else◌,
}
use kusanya.Base.Int.{ℤ, pos, ◌-ℤ◌}
use kusanya.Base.Table.{insert, select, update, exists, sum_of, put_rows}
use kusanya.Core.Result.{ok, err, integrity}
use kusanya.Core.Objects.{Object, Value, text, money, key}
use kusanya.Core.Objects
use kusanya.Tenants.Models.{Tenant}
use kusanya.Providers.Models.{PaymentProvider}
use kusanya.Payments.Models.{Payment, PaymentStatus, tag}
use kusanya.Payments.Status.{has_id}
use kusanya.Revenue.Models.{RevenueEvent, RevenueEventType}
use kusanya.Revenue.Models
use kusanya.Webhooks.Services.{dispatch_event}
use kusanya.Settlement.Models.{SettlementBatch, SettlementStatus}
use kusanya.Store.{Store}
use kusanya.Store.Action.{
  Action, ⊤, pure, gets, modify, atomic, draw, record_audit_event, ◌>>=◌, ◌>>◌,
}

-- The arguments of `generate_settlement_batch`.
pub record Period : Type 0 where
  pub tenant : Tenant
  pub provider : PaymentProvider
  pub period_start : ℕ
  pub period_end : ℕ

-- `completed_at__gte=period_start, completed_at__lt=period_end`; null is in no period.
abbrev pub is_within : ℕ → ℕ → Option ℕ → Bool
is_within start end none = false
is_within start end (some t) = leb start t && ltb t end

-- The filter of `generate_settlement_batch`.
unfoldable pub is_due : Period → Payment → Bool
is_due r p =
    (p.tenant.id == r.tenant.id)
    && ((p.provider.id == r.provider.id)
        && ((tag p.status == tag PaymentStatus.successful)
            && (not (is_some p.settlement_batch)
                && is_within r.period_start r.period_end p.completed_at)))

-- `id__in=[p.id for p in payments]`
unfoldable pub is_among : List Payment → Payment → Bool
is_among payments p = exists (has_id p.id) payments

-- `content_type=<Payment>, object_id__in=[...]`
unfoldable pub comes_from : List Payment → Object → Bool
comes_from payments (Objects.payment i) = exists (has_id i) payments
comes_from payments _ = false

abbrev pub is_fee_in : Period → List Payment → RevenueEvent → Bool
is_fee_in r payments e =
    (e.tenant.id == r.tenant.id)
    && ((Models.tag e.event_type == Models.tag RevenueEventType.payment_successful)
        && comes_from payments e.source)

abbrev pub gross_of : List Payment → ℤ
gross_of payments = sum_of (λ (p : Payment). p.amount) payments

abbrev pub platform_fees_of : Period → List Payment → Store → ℤ
platform_fees_of r payments s =
    sum_of (λ (e : RevenueEvent). e.amount) (select (is_fee_in r payments) s.revenue.rows)

-- The row of the batch; `SettlementBatch.save` draws the reference.
abbrev pub new_batch : Period → List Payment → Store → String → ℕ → SettlementBatch
new_batch r payments s uuid id = record {
  id = id;
  tenant = r.tenant;
  provider = r.provider;
  reference = "SET-" ++ (s.date ++ ("-" ++ uuid));
  period_start = r.period_start;
  period_end = r.period_end;
  gross_amount = gross_of payments;
  platform_fee_total = platform_fees_of r payments s;
  provider_fee_total = pos 0;
  net_amount = gross_of payments -ℤ platform_fees_of r payments s -ℤ pos 0;
  currency = r.tenant.default_currency;
  status = SettlementStatus.pending;
  settlement_date = none;
  external_settlement_reference = "";
}

-- The constraint `unique_settlement_batch_reference_per_tenant`.
abbrev pub has_same_reference : SettlementBatch → SettlementBatch → Bool
has_same_reference new b = (b.tenant.id == new.tenant.id) && str_eq b.reference new.reference

-- `SettlementBatch.objects.create(...)`
unfoldable pub insert_batch : (ℕ → SettlementBatch) → Action SettlementBatch
insert_batch row s =
    if exists (has_same_reference (row s.batches.next)) s.batches.rows
    then (err integrity, s)
    else (ok (row s.batches.next), record s { batches = insert s.batches row })

abbrev pub settle_in : ℕ → Payment → Payment
settle_in batch p = record p { settlement_batch = some batch }

-- `.update(settlement_batch=batch)`
unfoldable pub claim : List Payment → ℕ → Action ⊤
unfolding is_among
claim payments batch = modify (λ s. record s {
  payments = put_rows s.payments (update (is_among payments) (settle_in batch) s.payments.rows);
})

-- The body of the `with transaction.atomic()` block, once the payments have been read.
unfoldable pub batch_of : Period → Option ℕ → List Payment → Action SettlementBatch
unfolding draw insert_batch claim record_audit_event
batch_of r actor payments = do
  s ← gets (λ s. s)
  uuid ← draw
  batch ← insert_batch (new_batch r payments s uuid)
  claim payments batch.id
  record_audit_event "settlement.batch_created" actor (some r.tenant.id)
      (some (Objects.settlement_batch batch.id))
  pure batch

-- `generate_settlement_batch`
unfoldable pub generate_settlement_batch : Period → Option ℕ → Action SettlementBatch
unfolding atomic batch_of is_due
generate_settlement_batch r actor =
    atomic (do payments ← gets (λ s. select (is_due r) s.payments.rows); batch_of r actor payments)

abbrev pub completed : ℕ → String → SettlementBatch → SettlementBatch
completed now reference b = record b {
  status = SettlementStatus.completed;
  settlement_date = some now;
  external_settlement_reference = reference;
}

-- `batch.save(update_fields=[...])`
unfoldable pub save_batch : SettlementBatch → Action ⊤
save_batch b = modify (λ s. record s {
  batches = put_rows s.batches (
      update (λ (row : SettlementBatch). row.id == b.id)
        (λ row. record row {
          status = b.status;
          settlement_date = b.settlement_date;
          external_settlement_reference = b.external_settlement_reference;
        })
        s.batches.rows);
})

abbrev pub completion_payload : SettlementBatch → String → List (String × Value)
completion_payload b reference =
    ("settlement_batch_id", key b.id)
    ∷ ("reference", text b.reference)
    ∷ ("net_amount", money b.net_amount)
    ∷ ("currency", text b.currency)
    ∷ ("external_settlement_reference", text reference)
    ∷ []

-- `mark_settlement_completed`
unfoldable pub mark_settlement_completed :
    SettlementBatch → String → Option ℕ → Action SettlementBatch
unfolding save_batch record_audit_event dispatch_event
mark_settlement_completed b reference actor = do
  b' ← gets (λ s. completed s.now reference b)
  save_batch b'
  record_audit_event "settlement.completed" actor (some b'.tenant.id)
      (some (Objects.settlement_batch b'.id))
  dispatch_event b'.tenant "settlement.completed" (completion_payload b' reference)
  pure b'
