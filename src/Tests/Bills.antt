-- ===== src/Tests/Bills.antt =====
-- The theorems about bills and lost payments at work on the samples.
use kusanya.Notifications.Services.{create_notification}
use kusanya.Base.{true, false, none, ◌≡◌, refl, []}
use kusanya.Base.Int.{pos, ◌+ℤ◌, ◌*ℤ◌}
use kusanya.Base.Table.{first, exists, select, sum_of}
use kusanya.Core.Result.{ok, err, validation}
use kusanya.Billing.Models.{Bill}
use kusanya.Billing.Services.{new_bill, get_or_create_bill, create_bill}
use kusanya.Billing.Idempotence.{get_or_create_bill-again}
use kusanya.Billing.Totals.{create_bill-total}
use kusanya.Providers.Models.{ProviderOutcome}
use kusanya.Providers.Mock
use kusanya.Payments.Services.{query_payment}
use kusanya.Payments.Unresolved.{query_payment-pending}
use kusanya.Notifications.Services.{send_both, render_template}
use kusanya.Notifications.Defaults.{default_templates}
use kusanya.Store.{Store}
use kusanya.Store.Action.{◌>>=◌}
use kusanya.Tests.Samples.{
  half_up, mock_registry, sign_text, parse, empty_store, invoice, lost_payment, pending_store,
}

abbrev first_bill : Bill
first_bill = record (new_bill invoice "20260101" "A1" 0) { total_amount = pos 41666 }

after_invoice : Store
after_invoice = (get_or_create_bill invoice empty_store).1

bill_created : get_or_create_bill invoice empty_store ≡ (ok (first_bill, true), after_invoice)
unfolding get_or_create_bill after_invoice ◌>>=◌ first exists send_both render_template
    default_templates sum_of select ◌+ℤ◌ ◌*ℤ◌ create_notification
bill_created = refl

get_or_create_bill-again_example :
    get_or_create_bill (record invoice { items = [] }) after_invoice
    ≡ (ok (first_bill, false), after_invoice)
get_or_create_bill-again_example = get_or_create_bill-again invoice empty_store [] refl bill_created

after_create : Store
after_create = (create_bill invoice empty_store).1

bill_made : create_bill invoice empty_store ≡ (ok first_bill, after_create)
unfolding create_bill after_create ◌>>=◌ exists send_both render_template first default_templates
    sum_of select ◌+ℤ◌ ◌*ℤ◌ create_notification
bill_made = refl

create_bill-total_example : pos 41666 ≡ half_up (pos 125 *ℤ pos 33333) +ℤ pos 0
unfolding select
create_bill-total_example = create_bill-total invoice empty_store refl bill_made

query_payment-pending_example :
    (query_payment mock_registry lost_payment none pending_store).0 ≡ err validation
unfolding first Mock.registry Mock.query_payment
query_payment-pending_example =
    query_payment-pending mock_registry lost_payment none pending_store
      (Mock.adapter sign_text parse)
      (record { outcome = ProviderOutcome.pending; provider_reference = "MOCK-A1" }) refl refl refl
      refl
