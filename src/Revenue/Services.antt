-- ===== src/Revenue/Services.antt =====
-- apps/revenue/services.py: the only place where a fee is charged. Amounts are in cents.
use kusanya.Base.{ℕ, String, Bool, true, false, Option, none, some, ◌&&◌, ◌==◌, if◌then◌else◌}
use kusanya.Base.Int.{ℤ, pos, neg, ltb_ℤ}
use kusanya.Base.Table.{insert, first}
use kusanya.Core.Result.{ok}
use kusanya.Core.Objects.{Object, payment, control_number}
use kusanya.Tenants.Models.{Tenant, FeeRefundPolicy, clawback, retain}
use kusanya.ControlNumbers.Models.{ControlNumber}
use kusanya.Payments.Models.{Payment}
use kusanya.Ledger.Models.{
  LedgerEntry, LedgerEntryType, platform_control_number_fee, platform_payment_fee, refund, reversal,
  platform,
}
use kusanya.Ledger.Services.{post_entry, post_compensating_entry}
use kusanya.Revenue.Models.{
  RevenueEvent, RevenueEventType, control_number_created, control_number_reused, payment_successful,
  payment_failed, payment_duplicate, payment_reversed, payment_refunded, is_event,
}
use kusanya.Store.Action.{Action, pure, gets, ◌>>=◌}

-- `Decimal("50.00")`
abbrev pub control_number_creation_fee : ℤ
control_number_creation_fee = pos 5000

abbrev pub payment_success_fee : ℤ
payment_success_fee = pos 5000

abbrev pub new_event :
    Tenant → RevenueEventType → ℤ → String → Object → Option LedgerEntry → ℕ → RevenueEvent
new_event tenant event_type amount currency source ledger_entry id = record {
  id = id;
  tenant = tenant;
  event_type = event_type;
  amount = amount;
  currency = currency;
  source = source;
  ledger_entry = ledger_entry;
}

-- `_record_event`
unfoldable pub record_event :
    Tenant → RevenueEventType → ℤ → String → Object → Option LedgerEntry → Action RevenueEvent
record_event tenant event_type amount currency source ledger_entry s =
    let event : ℕ → RevenueEvent =
      new_event tenant event_type amount currency source ledger_entry in
    (ok (event s.revenue.next), record s { revenue = insert s.revenue event })

unfoldable pub record_control_number_created : ControlNumber → Action RevenueEvent
unfolding post_entry record_event
record_control_number_created cn = do
  entry ←
      post_entry cn.tenant platform_control_number_fee platform control_number_creation_fee
        cn.tenant.default_currency cn.value (some (control_number cn.id)) none
  record_event cn.tenant control_number_created control_number_creation_fee
      cn.tenant.default_currency (control_number cn.id) (some entry)

unfoldable pub record_control_number_reused : ControlNumber → Action RevenueEvent
unfolding record_event
record_control_number_reused cn =
    record_event cn.tenant control_number_reused (pos 0) cn.tenant.default_currency
      (control_number cn.id) none

unfoldable pub record_payment_successful : Payment → Action RevenueEvent
unfolding post_entry record_event
record_payment_successful p = do
  entry ←
      post_entry p.tenant platform_payment_fee platform payment_success_fee p.currency
        p.merchant_reference (some (payment p.id)) none
  record_event p.tenant payment_successful payment_success_fee p.currency (payment p.id)
      (some entry)

unfoldable pub record_payment_failed : Payment → Action RevenueEvent
unfolding record_event
record_payment_failed p =
    record_event p.tenant payment_failed (pos 0) p.currency (payment p.id) none

unfoldable pub record_payment_duplicate : Payment → Action RevenueEvent
unfolding record_event
record_payment_duplicate p =
    record_event p.tenant payment_duplicate (pos 0) p.currency (payment p.id) none

-- The `PAYMENT_SUCCESSFUL` event that `_compensate` looks for.
abbrev pub is_charge : Payment → RevenueEvent → Bool
is_charge p e = (e.tenant.id == p.tenant.id) && is_event payment_successful p.id e

abbrev pub is_clawback : FeeRefundPolicy → Bool
is_clawback clawback = true
is_clawback retain = false

-- The compensating entry, where the original event has a ledger entry.
unfoldable pub compensating_entry :
    Option LedgerEntry → LedgerEntryType → ℤ → Action (Option LedgerEntry)
unfolding post_compensating_entry
compensating_entry none ty amount = pure none
compensating_entry (some original) ty amount = do
  entry ← post_compensating_entry original ty amount
  pure (some entry)

-- `should_clawback` and the branch under it: the amount and the ledger entry to record.
unfoldable pub clawback_of :
    FeeRefundPolicy → Option RevenueEvent → LedgerEntryType → Action (ℤ × Option LedgerEntry)
unfolding compensating_entry
clawback_of policy none ty = pure (pos 0, none)
clawback_of policy (some original) ty =
    if is_clawback policy && ltb_ℤ (pos 0) original.amount
    then (do
      entry ← compensating_entry original.ledger_entry ty (neg original.amount)
      pure (neg original.amount, entry))
    else pure (pos 0, none)

-- `_compensate`
unfoldable pub compensate : Payment → RevenueEventType → LedgerEntryType → Action RevenueEvent
unfolding clawback_of record_event
compensate p event_type ty = do
  original ← gets (λ s. first (is_charge p) s.revenue.rows)
  (amount, entry) ← clawback_of p.tenant.fee_refund_policy original ty
  record_event p.tenant event_type amount p.currency (payment p.id) entry

unfoldable pub record_payment_reversed : Payment → Action RevenueEvent
unfolding compensate
record_payment_reversed p = compensate p payment_reversed reversal

unfoldable pub record_payment_refunded : Payment → Action RevenueEvent
unfolding compensate
record_payment_refunded p = compensate p payment_refunded refund
