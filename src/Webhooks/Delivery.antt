-- ===== src/Webhooks/Delivery.antt =====
-- apps/webhooks/tasks.py. The HTTP client is a parameter: what it answers to a request, or the
-- text of the exception that it raises. A delivery holds the endpoint that it goes to, as the
-- query loads it.
use kusanya.Base.{
  ℕ, ◌+◌, ◌*◌, ◌-◌, ◌^◌, String, Bool, true, false, Option, some, none, List, [], ◌∷◌, ◌&&◌, ltb,
  leb, ◌==◌, if◌then◌else◌,
}
use kusanya.Base.Table.{put_rows, first, update}
use kusanya.Base.Text.{take_chars}
use kusanya.Core.Result.{ok}
use kusanya.Core.Tasks.{TaskEnd, returns, retries}
use kusanya.Core.Objects.{Value}
use kusanya.Webhooks.Models.{WebhookDelivery, WebhookDeliveryStatus}
use kusanya.Webhooks.Signing.{canonical_body, build_signature}
use kusanya.Store.{Store}
use kusanya.Store.Action.{Action, ⊤, pure, gets, modify, ◌>>=◌, ◌>>◌}
use Prim.Native.String.{◌++◌}

-- A `requests.post`, and how it ends.
pub record HttpRequest : Type 0 where
  pub url : String
  pub body : String
  pub event : String
  pub delivery_id : ℕ
  pub timestamp : String
  pub signature : String

pub data HttpAnswer : Type 0 where
  responds : ℕ → String → HttpAnswer
  raises : String → HttpAnswer

-- The clock's text, `json.dumps` and the HMAC.
pub record Wire : Type 0 where
  pub timestamp_text : ℕ → String
  pub dumps : List (String × Value) → String
  pub sign : String → String → String

abbrev pub is_delivered : WebhookDeliveryStatus → Bool
is_delivered WebhookDeliveryStatus.delivered = true
is_delivered _ = false

abbrev pub is_success : ℕ → Bool
is_success status_code = leb 200 status_code && ltb status_code 300

unfoldable pub build_request : Wire → ℕ → WebhookDelivery → HttpRequest
build_request wire now d =
    let body = canonical_body wire.dumps d.payload in
    let timestamp = wire.timestamp_text now in
    record {
      url = d.endpoint.url;
      body = body;
      event = d.event_type;
      delivery_id = d.id;
      timestamp = timestamp;
      signature = "sha256=" ++ build_signature wire.sign d.endpoint.secret timestamp body;
    }

-- The row after the answer, and whether the answer is a success.
unfoldable pub take_answer : ℕ → HttpAnswer → WebhookDelivery → Bool × WebhookDelivery
take_answer now (raises text) d = (
  false,
  record d {
    attempt_count = d.attempt_count + 1;
    last_attempted_at = some now;
    response_status_code = none;
    response_body = take_chars 2000 text;
  },
)
take_answer now (responds status_code text) d = (
  is_success status_code,
  record d {
    attempt_count = d.attempt_count + 1;
    last_attempted_at = some now;
    response_status_code = some status_code;
    response_body = take_chars 2000 text;
    status = if is_success status_code then WebhookDeliveryStatus.delivered else d.status;
  },
)

abbrev pub has_id : ℕ → WebhookDelivery → Bool
has_id i d = d.id == i

-- `delivery.save(...)`
abbrev pub save_delivery : WebhookDelivery → Action ⊤
save_delivery d = modify (λ s. record s {
  deliveries = put_rows s.deliveries (update (has_id d.id) (λ _. d) s.deliveries.rows);
})

abbrev pub min : ℕ → ℕ → ℕ
min a b = if leb a b then a else b

unfoldable pub retry_countdown : ℕ → ℕ
retry_countdown attempt_count = min (2 ^ attempt_count * 5) 300

-- After a failed attempt: the dead letters, or another attempt.
unfoldable pub after_failure : WebhookDelivery → Action TaskEnd
after_failure d =
    if leb d.max_attempts d.attempt_count
    then save_delivery (record d { status = WebhookDeliveryStatus.dead_letter }) >> pure returns
    else save_delivery (record d { status = WebhookDeliveryStatus.retrying })
      >> pure (retries (retry_countdown d.attempt_count))

module _ (wire : Wire) (post : HttpRequest → HttpAnswer) where
  unfoldable pub perform_delivery : WebhookDelivery → Action (Bool × WebhookDelivery)
  perform_delivery d = do
    s ← gets (λ s. s)
    let (success, d') = take_answer s.now (post (build_request wire s.now d)) d
    save_delivery d'
    pure (success, d')

  unfoldable pub attempt_delivery : WebhookDelivery → Action TaskEnd
  attempt_delivery d = do
    let attempt = perform_delivery d
    (success, d') ← attempt
    if success then pure returns else after_failure d'

  unfoldable pub deliver_found : Option WebhookDelivery → Action TaskEnd
  deliver_found none = pure returns
  deliver_found (some d) = if is_delivered d.status then pure returns else attempt_delivery d

  unfoldable pub deliver_webhook : ℕ → Action TaskEnd
  deliver_webhook delivery_id = do
    found ← gets (λ s. first (has_id delivery_id) s.deliveries.rows)
    deliver_found found

-- `max_retries` of the task
abbrev pub max_retries : ℕ
max_retries = 6

-- The runs of the task for one delivery: one for each answer of the network, as long as a run
-- asks for another and there are retries left. Without one, `self.retry` raises, and what the run
-- saved stays saved.
unfoldable pub run_deliveries : Wire → ℕ → ℕ → List (HttpRequest → HttpAnswer) → Store → Store
run_deliveries wire delivery_id left [] s = s
run_deliveries wire delivery_id left (post ∷ posts) s =
    let (end, s') = deliver_webhook wire post delivery_id s in
    let later = run_deliveries wire delivery_id (left - 1) posts s' in
    elim end [ ok (retries _) ↦ if left == 0 then s' else later | _ ↦ s' ]
