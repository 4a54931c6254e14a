-- ===== src/Tests/Delivery.antt =====
-- The theorems about the delivery of webhooks and notifications at work.
use kusanya.Notifications.Delivery.{deliver_email}
use kusanya.Notifications.Delivery.{run_handler}
use kusanya.Base.{
  ◌≤◌, String, true, none, some, Option, List, [], ◌∷◌, ◌≡◌, refl, length, arith, eq_iff,
}
use kusanya.Base.Table.{first, update}
use kusanya.Base.Text.{take_chars}
use kusanya.Webhooks.Models.{WebhookDelivery, WebhookDeliveryStatus}
use kusanya.Webhooks.Services.{new_delivery}
use kusanya.Webhooks.Delivery.{
  HttpRequest, HttpAnswer, responds, raises, Wire, build_request, deliver_webhook, run_deliveries,
  max_retries, deliver_found, attempt_delivery, perform_delivery, take_answer, after_failure,
  retry_countdown, has_id,
}
use kusanya.Webhooks.Attempts.{Over, run_deliveries-ends, deliver_webhook-backoff}
use kusanya.Webhooks.Received.{is_accepted, build_request-accepted}
use kusanya.Notifications.Models.{Notification, NotificationEventType, NotificationStatus, email}
use kusanya.Notifications.Delivery.{Mail, mail_of, deliver_notification, run_notifications}
use kusanya.Notifications.Once.{run_notifications-once}
use kusanya.Store.{Store}
use kusanya.Store.Action.{◌>>=◌}
use kusanya.Tests.Samples.{school, endpoint, empty_store}

abbrev wire : Wire
wire = record {
  timestamp_text = λ now. "1700000000";
  dumps = λ payload. "{}";
  sign = λ secret message. "5f";
}

abbrev hook : WebhookDelivery
hook = new_delivery school "payment.completed" [] endpoint 0

abbrev hooked_store : Store
hooked_store = record empty_store { deliveries = record { next = 1; rows = hook ∷ [] } }

abbrev times_out : HttpRequest → HttpAnswer
times_out r = raises "timed out"

abbrev accepts : HttpRequest → HttpAnswer
accepts r = responds 204 ""

abbrev outage : List (HttpRequest → HttpAnswer)
outage = times_out ∷ times_out ∷ times_out ∷ times_out ∷ times_out ∷ times_out ∷ []

-- The second attempt reaches the endpoint, and the third does not take place.
second_try :
    first
      (has_id 0)
      (run_deliveries wire 0 max_retries
        (times_out ∷ accepts ∷ times_out ∷ [])
        hooked_store).deliveries.rows
    ≡ some (record hook {
      status = WebhookDeliveryStatus.delivered;
      attempt_count = 2;
      last_attempted_at = some hooked_store.now;
      response_status_code = some 204;
    })
unfolding deliver_webhook deliver_found attempt_delivery perform_delivery take_answer after_failure
    retry_countdown first ◌>>=◌ run_deliveries update take_chars
second_try = refl

build_request-accepted_example : is_accepted wire "s" (build_request wire 7 hook) ≡ true
build_request-accepted_example =
    build_request-accepted wire 7 hook (λ message e. ground (arith, (eq_iff "5f" "").1 e))

run_deliveries-ends_example : Over 0 6 (run_deliveries wire 0 max_retries outage hooked_store)
unfolding first length
run_deliveries-ends_example =
    run_deliveries-ends wire 0 max_retries outage hooked_store hook refl (omega arith) (omega arith)
      (omega arith)

deliver_webhook-backoff_example : (10 ≤ 10) × (10 ≤ 300)
unfolding deliver_webhook deliver_found attempt_delivery perform_delivery take_answer after_failure
    retry_countdown first ◌>>=◌
deliver_webhook-backoff_example = deliver_webhook-backoff wire times_out 0 10 hooked_store refl

abbrev receipt_mail : Notification
receipt_mail = record {
  id = 0;
  tenant = school;
  event_type = NotificationEventType.payment_successful;
  channel = email;
  recipient = "parent@example.com";
  subject = "Paid";
  body = "Paid";
  status = NotificationStatus.pending;
  sent_at = none;
  error_message = "";
}

abbrev mail_store : Store
mail_store = record empty_store { notifications = record { next = 1; rows = receipt_mail ∷ [] } }

abbrev mail_works : Mail → Option String
mail_works m = none

abbrev mail_fails : Mail → Option String
mail_fails m = some "refused"

run_notifications-once_example :
    run_notifications 0 (mail_works ∷ mail_fails ∷ mail_works ∷ []) mail_store
    ≡ (mail_of receipt_mail ∷ [], (deliver_notification mail_works 0 mail_store).1)
unfolding first run_handler deliver_email
run_notifications-once_example =
    run_notifications-once mail_works 0 (mail_fails ∷ mail_works ∷ []) mail_store receipt_mail refl
      refl refl
