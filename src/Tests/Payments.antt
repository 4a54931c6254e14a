-- ===== src/Tests/Payments.antt =====
-- The theorems about the orchestrator at work on the samples.
use kusanya.Payments.Services.{refused}
use kusanya.Notifications.Services.{create_notification}
use kusanya.Base.{◌+◌, true, none, some, ◌≡◌, refl, [], ◌∷◌, arith}
use kusanya.Base.Int.{◌+ℤ◌}
use kusanya.Base.Table.{first, count, exists}
use kusanya.Core.Result.{ok}
use kusanya.Providers.Models.{ProviderOutcome}
use kusanya.Providers.Mock.{registry}
use kusanya.Payments.Models.{Payment, successful, allowed_transitions, status_in, enter_status}
use kusanya.Payments.Requests.{serve_all}
use kusanya.Payments.Outcome.{
  allocate_to, apply_outcome, apply_status, after_successful, settle_success,
}
use kusanya.Payments.Messages.{success_event}
use kusanya.Notifications.Services.{send_both, render_template}
use kusanya.Notifications.Defaults.{default_templates}
use kusanya.Payments.Books.{books, Evolves}
use kusanya.Payments.Books.Keys.{KeyedBooks}
use kusanya.Payments.Books.Charges.{IsCharged, fees_of}
use kusanya.Payments.Books.Requests.{serve_all-Evolves}
use kusanya.Payments.Fees.{serve_all-IsCharged, serve_all-Grows, Grows}
use kusanya.Payments.Duplicates.{IsSameMoney, process_callback-repeated}
use kusanya.Payments.Timeouts.{IsLeftUnknown, initiate_payment-timeout}
use kusanya.Payments.Allocations.{status_of, allocate_to-status}
use kusanya.Payments.Callbacks.{process_callback}
use kusanya.Payments.Services.{initiate_payment}
use kusanya.Billing.Models.{BillStatus}
use kusanya.Billing.Account.{has_bill_id, amount_paid}
use kusanya.Base.Table.{select, sum_of}
use kusanya.Providers.Mock.{adapter}
use kusanya.Providers.Mock
use kusanya.Payments.Races.{stale-double_fee}
use kusanya.Payments.Repeats.{apply_outcome-again}
use kusanya.Store.{Store}
use kusanya.Store.Action.{◌>>=◌}
use kusanya.Billing.Account.{bill_of}
use kusanya.Receipts.Services.{generate_receipt}
use kusanya.Tests.Samples.{
  mock_registry, first_payment, one_payment, day, delivered_store, school_bill, billed_store,
  late_adapter, late_registry, empty_store, mock_provider, order, sign_text, parse,
}

one_payment-KeyedBooks : KeyedBooks (books one_payment)
one_payment-KeyedBooks = (omega arith, tt)

one_payment-IsCharged : IsCharged (books one_payment)
one_payment-IsCharged = record { fees = λ i. unfold count first in ground arith }

serve_all-Evolves_example :
    Evolves (books one_payment) (books (serve_all mock_registry day one_payment))
serve_all-Evolves_example = serve_all-Evolves mock_registry day one_payment one_payment-KeyedBooks

serve_all-IsCharged_example :
    KeyedBooks (books (serve_all mock_registry day one_payment))
    × IsCharged (books (serve_all mock_registry day one_payment))
serve_all-IsCharged_example =
    serve_all-IsCharged mock_registry day one_payment one_payment-KeyedBooks one_payment-IsCharged

serve_all-Grows_example :
    Grows (books one_payment) (books (serve_all mock_registry day one_payment))
serve_all-Grows_example = serve_all-Grows mock_registry day one_payment one_payment-KeyedBooks

pending_settles : status_in successful (allowed_transitions first_payment.status) ≡ true
unfolding allowed_transitions
pending_settles = refl

after_one : Store
after_one = (apply_status first_payment successful none one_payment).1

after_two : Store
after_two = (apply_status first_payment successful none after_one).1

abbrev paid_payment : Payment
paid_payment = record first_payment { status = successful; completed_at = some 100 }

one_answers : apply_status first_payment successful none one_payment ≡ (ok paid_payment, after_one)
unfolding after_one apply_status ◌>>=◌ allowed_transitions after_successful settle_success
    enter_status generate_receipt first exists send_both render_template default_templates
    success_event create_notification
one_answers = refl

two_answers : apply_status first_payment successful none after_one ≡ (ok paid_payment, after_two)
unfolding after_one after_two apply_status ◌>>=◌ allowed_transitions after_successful settle_success
    enter_status generate_receipt first exists send_both render_template default_templates
    success_event create_notification
two_answers = refl

stale-double_fee_example : fees_of 0 (books after_two) ≡ fees_of 0 (books one_payment) + 2
stale-double_fee_example =
    stale-double_fee first_payment none none one_payment pending_settles one_answers two_answers

after_success : Store
after_success = (apply_outcome first_payment ProviderOutcome.successful none one_payment).1

first_payment_succeeds :
    apply_outcome first_payment ProviderOutcome.successful none one_payment
    ≡ (ok (record first_payment { status = successful; completed_at = some 100 }), after_success)
unfolding apply_outcome after_success after_successful settle_success ◌>>=◌ enter_status
    allowed_transitions bill_of generate_receipt first exists send_both render_template
    default_templates success_event create_notification
first_payment_succeeds = refl

apply_outcome-again_example :
    apply_outcome
      (record first_payment { status = successful; completed_at = some 100 })
      ProviderOutcome.successful
      (some 7)
      after_success
    ≡ (ok (record first_payment { status = successful; completed_at = some 100 }), after_success)
apply_outcome-again_example =
    apply_outcome-again first_payment ProviderOutcome.successful none (some 7) one_payment
      first_payment_succeeds

process_callback-repeated_example :
    IsSameMoney delivered_store
      (process_callback mock_registry mock_provider "x"
        (("X-Mock-Signature", "x") ∷ [])
        none
        delivered_store).1
unfolding registry exists Mock.process_callback
process_callback-repeated_example =
    process_callback-repeated mock_registry mock_provider (adapter sign_text parse) "x"
      (("X-Mock-Signature", "x") ∷ []) none delivered_store
      (record {
        external_event_id = "E1";
        provider_reference = "MOCK-A1";
        outcome = ProviderOutcome.successful;
      })
      refl refl refl

initiate_payment-timeout_example :
    IsLeftUnknown empty_store (initiate_payment late_registry order empty_store)
unfolding exists first refused
initiate_payment-timeout_example =
    initiate_payment-timeout late_registry order late_adapter empty_store refl "late"
      (λ req w. refl) refl refl (λ given. refl)

allocate_to-status_example :
    status_of (
      first
        (has_bill_id 0)
        (allocate_to first_payment (some school_bill) billed_store).1.bills.rows)
    ≡ some BillStatus.partially_paid
unfolding first amount_paid select sum_of ◌+ℤ◌
allocate_to-status_example = allocate_to-status first_payment school_bill billed_store refl refl
