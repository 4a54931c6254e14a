-- ===== src/Webhooks/Models.antt =====
-- apps/webhooks/models.py
use kusanya.Base.{ℕ, String, Bool, true, false, List, [], ◌∷◌, Option, ◌||◌, str_eq}
use kusanya.Core.Objects.{Value}
use kusanya.Tenants.Models.{Tenant}

pub record WebhookEndpoint : Type 0 where
  pub id : ℕ
  pub tenant : Tenant
  pub url : String
  pub secret : String
  pub is_active : Bool
  pub subscribed_events : List String

-- `event_type in self.subscribed_events`
unfoldable pub text_in : String → List String → Bool
text_in t [] = false
text_in t (x ∷ xs) = str_eq t x || text_in t xs

-- `WebhookEndpoint.is_subscribed_to`: no list means every event.
unfoldable pub is_subscribed_to : List String → String → Bool
is_subscribed_to [] event_type = true
is_subscribed_to (x ∷ xs) event_type = text_in event_type (x ∷ xs)

pub data WebhookDeliveryStatus : Type 0 where
  pending retrying delivered dead_letter : WebhookDeliveryStatus

pub record WebhookDelivery : Type 0 where
  pub id : ℕ
  pub tenant : Tenant
  pub endpoint : WebhookEndpoint
  pub event_type : String
  pub payload : List (String × Value)
  pub status : WebhookDeliveryStatus
  pub attempt_count : ℕ
  pub max_attempts : ℕ
  pub last_attempted_at : Option ℕ
  pub response_status_code : Option ℕ
  pub response_body : String
