-- ===== src/Billing/Services.antt =====
-- apps/billing/services.py. Amounts of items are in cents and quantities in hundredths; the optional
-- revenue source and the free metadata of a bill are not modelled.
use Prim.Native.String.{◌++◌}
use kusanya.Base.{
  ℕ, zero, suc, String, Bool, true, false, Option, none, some, List, [], ◌∷◌, ◌&&◌, ◌==◌, str_eq,
  not, if◌then◌else◌,
}
use kusanya.Base.Int.{ℤ, pos, ◌*ℤ◌}
use kusanya.Base.Table.{Table, insert, first, exists}
use kusanya.Core.Result.{Result, ok, err, integrity}
use kusanya.Core.Objects.{Value, text, money, key}
use kusanya.Core.Objects
use kusanya.Tenants.Models.{Tenant}
use kusanya.Customers.Models.{CustomerAccount}
use kusanya.Billing.Models.{Bill, BillItem, BillStatus}
use kusanya.Billing.Account.{transition_to, recalculate_total}
use kusanya.Notifications.Models.{NotificationEventType, Context}
use kusanya.Notifications.Services.{send_notification}
use kusanya.Webhooks.Services.{dispatch_event}
use kusanya.Store.{Store}
use kusanya.Store.Action.{
  Action, ⊤, pure, raise, gets, modify, atomic, draw, record_audit_event, ◌>>=◌, ◌>>◌,
}

-- One of the `items`. The product of quantity and amount is in ten-thousandths.
pub record Item : Type 0 where
  pub description : String
  pub quantity : ℤ
  pub unit_amount : ℤ

-- The arguments of `get_or_create_bill`.
pub record BillRequest : Type 0 where
  pub tenant : Tenant
  pub customer_account : CustomerAccount
  pub items : List Item
  pub external_reference : String
  pub due_date : Option ℕ
  pub actor : Option ℕ

-- `tenant=tenant, external_reference=external_reference`
abbrev pub is_bill_for : ℕ → String → Bill → Bool
is_bill_for tenant reference b = (b.tenant.id == tenant) && str_eq b.external_reference reference

-- What the two unique constraints of `Bill` refuse.
abbrev pub bill_clashes : Bill → Bill → Bool
bill_clashes new b =
    if (b.tenant.id == new.tenant.id) && str_eq b.bill_number new.bill_number
    then true
    else not (str_eq new.external_reference "")
      && is_bill_for new.tenant.id new.external_reference b

abbrev pub new_bill : BillRequest → String → String → ℕ → Bill
new_bill r date uuid id = record {
  id = id;
  tenant = r.tenant;
  customer_account = r.customer_account;
  bill_number = "BILL-" ++ (date ++ ("-" ++ uuid));
  status = BillStatus.draft;
  currency = "TZS";
  total_amount = pos 0;
  due_date = r.due_date;
  issued_at = none;
  cancelled_at = none;
  external_reference = r.external_reference;
}

-- `Bill.objects.create(...)`
unfoldable pub insert_bill : (ℕ → Bill) → Action Bill
insert_bill row s =
    if exists (bill_clashes (row s.bills.next)) s.bills.rows
    then (err integrity, s)
    else (ok (row s.bills.next), record s { bills = insert s.bills row })

-- `BillItem.objects.bulk_create(...)`, whose column `line_total` has two decimal places.
unfoldable pub add_items : (ℤ → ℤ) → ℕ → List Item → Table BillItem → Table BillItem
add_items round_column bill [] t = t
add_items round_column bill (i ∷ is) t = add_items round_column bill is (
    insert t (λ id. record {
      id = id;
      bill = bill;
      description = i.description;
      line_total = round_column (i.quantity *ℤ i.unit_amount);
    }))

abbrev status_text : BillStatus → String
status_text BillStatus.draft = "draft"
status_text BillStatus.active = "active"
status_text BillStatus.partially_paid = "partially_paid"
status_text BillStatus.paid = "paid"
status_text BillStatus.expired = "expired"
status_text BillStatus.cancelled = "cancelled"
status_text BillStatus.disputed = "disputed"

abbrev bill_payload : Bill → List (String × Value)
bill_payload b =
    ("bill_id", key b.id)
    ∷ ("bill_number", text b.bill_number)
    ∷ ("status", text (status_text b.status))
    ∷ ("total_amount", money b.total_amount)
    ∷ ("currency", text b.currency)
    ∷ ("customer_account", text b.customer_account.name)
    ∷ []

-- `_dispatch_bill_event`
unfoldable pub dispatch_bill_event : Bill → String → Action ⊤
unfolding dispatch_event
dispatch_bill_event b event_type = dispatch_event b.tenant event_type (bill_payload b)

abbrev bill_context : Bill → Context
bill_context b =
    ("institution_name", text b.tenant.name)
    ∷ ("customer_name", text b.customer_account.customer.full_name)
    ∷ ("bill_number", text b.bill_number)
    ∷ []

-- `_notify_bill_created`
unfoldable pub notify_bill_created : Bill → Action ⊤
unfolding send_notification
notify_bill_created b = do
  send_notification b.tenant NotificationEventType.bill_created (bill_context b)
      b.customer_account.customer.email b.customer_account.customer.phone_number
  pure tt

abbrev audit_bill : String → Option ℕ → Bill → Action ⊤
audit_bill action actor b =
    record_audit_event action actor (some b.tenant.id) (some (Objects.bill b.id))

-- One attempt, in its savepoint.
unfoldable pub create_bill : BillRequest → Action Bill
unfolding draw insert_bill add_items recalculate_total record_audit_event dispatch_bill_event
    notify_bill_created
create_bill r = do
  date ← gets (λ s. s.date)
  uuid ← draw
  b ← insert_bill (new_bill r date uuid)
  modify (λ s. record s { items = add_items s.round_column b.id r.items s.items })
  b' ← recalculate_total b
  audit_bill "bill.created" r.actor b'
  dispatch_bill_event b' "bill.created"
  notify_bill_created b'
  pure b'

-- The bill that the request's external reference already has; a blank one has none.
unfoldable pub known_bill : BillRequest → Store → Option Bill
known_bill r s =
    if str_eq r.external_reference ""
    then none
    else first (is_bill_for r.tenant.id r.external_reference) s.bills.rows

-- The answer to an `IntegrityError`.
unfoldable pub recover_bill : Option Bill → Action (Bill × Bool) → Action (Bill × Bool)
recover_bill (some existing) again = pure (existing, false)
recover_bill none again = again

abbrev pub billed : Action (Bill × Bool) → Result Bill → Action (Bill × Bool)
billed again (ok b) = pure (b, true)
billed again (err integrity) = again
billed again (err e) = raise e

-- The loop over the attempts that are left.
unfoldable pub bill_attempts : ℕ → BillRequest → Action (Bill × Bool)
unfolding atomic create_bill recover_bill known_bill
bill_attempts zero r = raise integrity
bill_attempts (suc n) r =
    let again = bill_attempts n r in
    λ s.
      let (result, s') = atomic (create_bill r) s in
      billed (recover_bill (known_bill r s') again) result s'

unfoldable pub find_or_create_bill : BillRequest → Option Bill → Action (Bill × Bool)
unfolding bill_attempts
find_or_create_bill r (some existing) = pure (existing, false)
find_or_create_bill r none = bill_attempts 3 r

-- `get_or_create_bill`
unfoldable pub get_or_create_bill : BillRequest → Action (Bill × Bool)
unfolding known_bill find_or_create_bill
get_or_create_bill r = do existing ← gets (known_bill r); find_or_create_bill r existing

-- `cancel_bill`
unfoldable pub cancel_bill : Bill → Option ℕ → Action Bill
unfolding transition_to record_audit_event dispatch_bill_event
cancel_bill b actor = do
  b' ← transition_to b BillStatus.cancelled
  audit_bill "bill.cancelled" actor b'
  dispatch_bill_event b' "bill.cancelled"
  pure b'
