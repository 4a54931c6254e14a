-- ===== src/Webhooks/Services.antt =====
-- apps/webhooks/services.py. The enqueueing of the delivery, when the transaction commits, is the
-- pending row itself.
use kusanya.Base.{ℕ, String, Bool, none, List, [], ◌∷◌, ◌&&◌, ◌==◌, if◌then◌else◌}
use kusanya.Base.Table.{Table, insert}
use kusanya.Core.Result.{ok}
use kusanya.Core.Objects.{Value}
use kusanya.Tenants.Models.{Tenant}
use kusanya.Webhooks.Models.{
  WebhookEndpoint, WebhookDelivery, WebhookDeliveryStatus, is_subscribed_to,
}
use kusanya.Store.Action.{Action, ⊤}

-- The endpoints that an event goes to: active, of the tenant, and subscribed.
abbrev pub is_reached : Tenant → String → WebhookEndpoint → Bool
is_reached tenant event_type e =
    (e.tenant.id == tenant.id) && (e.is_active && is_subscribed_to e.subscribed_events event_type)

abbrev pub new_delivery :
    Tenant → String → List (String × Value) → WebhookEndpoint → ℕ → WebhookDelivery
new_delivery tenant event_type payload endpoint id = record {
  id = id;
  tenant = tenant;
  endpoint = endpoint;
  event_type = event_type;
  payload = payload;
  status = WebhookDeliveryStatus.pending;
  attempt_count = 0;
  max_attempts = 6;
  last_attempted_at = none;
  response_status_code = none;
  response_body = "";
}

-- The loop of `dispatch_event` over the endpoints, on the table that it writes.
unfoldable pub dispatch_all :
    Tenant
    → String
    → List (String × Value)
    → List WebhookEndpoint
    → Table WebhookDelivery
    → Table WebhookDelivery
dispatch_all tenant event_type payload [] t = t
dispatch_all tenant event_type payload (e ∷ es) t = dispatch_all tenant event_type payload es (
    if is_reached tenant event_type e
    then insert t (new_delivery tenant event_type payload e)
    else t)

unfoldable pub dispatch_event : Tenant → String → List (String × Value) → Action ⊤
dispatch_event tenant event_type payload s = (
  ok tt,
  record s { deliveries = dispatch_all tenant event_type payload s.endpoints s.deliveries },
)
