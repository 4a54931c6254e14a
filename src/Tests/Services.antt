-- ===== src/Tests/Services.antt =====
-- The theorems about the other services at work on the samples.
use kusanya.Notifications.Services.{create_notification}
use kusanya.Base.{
  ◌+◌, ◌==◌, String, Bool, List, true, false, not, inl, ==_iff, none, some, ◌≡◌, refl, [], ◌∷◌,
  ◌&&◌, arith,
}
use kusanya.Base.Int.{pos, ◌+ℤ◌}
use kusanya.Base.Table.{first, count, exists, select, sum_of}
use kusanya.Core.Result.{ok}
use kusanya.Settlement.Models.{SettlementBatch}
use kusanya.Settlement.Services.{is_due, new_batch, generate_settlement_batch, gross_of}
use kusanya.Settlement.Claims.{
  generate_settlement_batch-settles, generate_settlement_batch-gross, is_settled_in,
}
use kusanya.ControlNumbers.Services.{get_or_create, new_number}
use kusanya.ControlNumbers.Unique.{IsUnique, get_or_create-IsUnique}
use kusanya.ControlNumbers.Fees.{creations, get_or_create-charges}
use kusanya.Reconciliation.Models.{ReconciliationRun, ReconciliationRunStatus}
use kusanya.Reconciliation.Services.{check_settled_payments, run_reconciliation}
use kusanya.Reconciliation.Checks.{check_settled_payments-books, run_reconciliation-counts}
use kusanya.Webhooks.Services.{dispatch_event}
use kusanya.Webhooks.Models.{WebhookEndpoint}
use kusanya.Webhooks.Reach.{IsListener, goes_to, dispatch_event-reaches}
use kusanya.Notifications.Models.{NotificationEventType}
use kusanya.Notifications.Services.{send_notification, send_both, render_template}
use kusanya.Notifications.Defaults.{default_templates}
use kusanya.Providers.Mock.{registry, reconcile}
use kusanya.Notifications.Total.{has_text, send_notification-has_text}
use kusanya.Payments.Books.{books}
use kusanya.Store.{Store}
use kusanya.Store.Action.{◌>>=◌}
use kusanya.Tests.Samples.{
  mock_registry, school, settled_payment, january, settled_store, number_request, endpoint,
  empty_store,
}

abbrev january_batch : SettlementBatch
january_batch = new_batch january (settled_payment ∷ []) settled_store "A1" 0

after_january : Store
after_january = (generate_settlement_batch january none settled_store).1

january_runs :
    generate_settlement_batch january none settled_store ≡ (ok january_batch, after_january)
unfolding generate_settlement_batch after_january ◌>>=◌ exists select
january_runs = refl

generate_settlement_batch-settles_example : select (is_due january) after_january.payments.rows ≡ []
generate_settlement_batch-settles_example =
    generate_settlement_batch-settles january none settled_store january_runs

no_claim : select (is_settled_in 0) (settled_payment ∷ []) ≡ []
unfolding select
no_claim = refl

generate_settlement_batch-gross_example :
    pos 50000 ≡ gross_of (select (is_settled_in 0) after_january.payments.rows)
unfolding sum_of ◌+ℤ◌
generate_settlement_batch-gross_example =
    generate_settlement_batch-gross january none settled_store (omega arith, tt) no_claim
      january_runs

abbrev school_run : ReconciliationRun
school_run = record {
  id = 0;
  tenant = school;
  status = ReconciliationRunStatus.completed;
  triggered_by = none;
  completed_at = some 100;
  total_checked = 1;
  matched_count = 0;
  exception_count = 1;
  resolved_unknown_count = 0;
}

after_run : Store
after_run = (run_reconciliation mock_registry school none settled_store).1

school_runs :
    run_reconciliation mock_registry school none settled_store ≡ (ok school_run, after_run)
unfolding run_reconciliation after_run ◌>>=◌ select registry reconcile first
school_runs = refl

run_reconciliation-counts_example : 1 ≡ 0 + 1 + 0
run_reconciliation-counts_example =
    run_reconciliation-counts mock_registry school none settled_store school_runs

check_settled_payments-books_example :
    books (check_settled_payments mock_registry school_run settled_store).1 ≡ books settled_store
check_settled_payments-books_example =
    check_settled_payments-books mock_registry school_run settled_store

empty-IsUnique : IsUnique empty_store
empty-IsUnique = record { current = λ o. unfold count in omega arith }

get_or_create-IsUnique_example : IsUnique (get_or_create number_request empty_store).1
get_or_create-IsUnique_example = get_or_create-IsUnique number_request empty_store empty-IsUnique

after_issue : Store
after_issue = (get_or_create number_request empty_store).1

number_created :
    get_or_create number_request empty_store
    ≡ (ok (new_number number_request "260101A1" 0, true), after_issue)
unfolding get_or_create after_issue ◌>>=◌ first exists send_both render_template default_templates
    create_notification
number_created = refl

get_or_create-charges_example :
    (creations false 0 after_issue ≡ creations false 0 empty_store + 1)
    × (creations true 0 after_issue ≡ creations true 0 empty_store + 1)
get_or_create-charges_example = get_or_create-charges number_request empty_store 0 number_created

abbrev hears_all : List String → Bool
hears_all [] = true
hears_all _ = false

no_events : (xs : List String) → hears_all xs ≡ true → xs ≡ []
no_events [] h = refl
no_events (x ∷ xs) h = absurd (ground (arith, h))

abbrev two_endpoints : Store
two_endpoints = record empty_store {
  endpoints = endpoint ∷ record endpoint { is_active = false } ∷ [];
}

-- All endpoints hear of a new bill that are the school's and listen to everything; the closed ones
-- do not.
abbrev open_school : WebhookEndpoint → Bool
open_school e = (e.tenant.id == school.id) && (e.is_active && hears_all e.subscribed_events)

open-IsListener : (e : WebhookEndpoint) → open_school e ≡ true → IsListener school "bill.created" e
open-IsListener e h = record {
  owner = (==_iff e.tenant.id school.id).0 (ground (arith, h));
  active = ground (arith, h);
  subscribed = inl (no_events e.subscribed_events (ground (arith, h)));
}

closed-other : (e : WebhookEndpoint) → not e.is_active ≡ true → ¬ IsListener school "bill.created" e
closed-other e h l = ground (arith, h, l.active)

dispatch_event-reaches_example :
    let t = (dispatch_event school "bill.created" [] two_endpoints).1.deliveries.rows in
    (count (goes_to open_school) t
      ≡ count open_school two_endpoints.endpoints + count (goes_to open_school) [])
    × (count (goes_to (λ e. not e.is_active)) t ≡ count (goes_to (λ e. not e.is_active)) [])
dispatch_event-reaches_example =
    dispatch_event-reaches school "bill.created" [] two_endpoints open_school (λ e. not e.is_active)
      open-IsListener closed-other

send_notification-has_text_example :
    has_text
      (send_notification school NotificationEventType.bill_created [] "a@example.com" ""
        empty_store).0
    ≡ true
send_notification-has_text_example =
    send_notification-has_text school NotificationEventType.bill_created [] "a@example.com" ""
      empty_store
