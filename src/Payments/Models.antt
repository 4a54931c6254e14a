-- ===== src/Payments/Models.antt =====
-- apps/payments/models.py
use kusanya.Base.{
  ℕ, String, Bool, false, Option, some, List, [], ◌∷◌, ◌||◌, ◌==◌, if◌then◌else◌, str_eq,
}
use kusanya.Base.Int.{ℤ}
use kusanya.Tenants.Models.{Tenant}
use kusanya.ControlNumbers.Models.{ControlNumber}
use kusanya.Providers.Models.{PaymentProvider, PaymentChannel}

pub data PaymentStatus : Type 0 where
  initiated pending successful failed unknown expired reversed refunded : PaymentStatus

-- `==` on the members of `PaymentStatus`, by their place in the declaration.
abbrev pub tag : PaymentStatus → ℕ
tag initiated = 0
tag pending = 1
tag successful = 2
tag failed = 3
tag unknown = 4
tag expired = 5
tag reversed = 6
tag refunded = 7

-- The value of a member, which is what the column holds.
abbrev pub value : PaymentStatus → String
value initiated = "initiated"
value pending = "pending"
value successful = "successful"
value failed = "failed"
value unknown = "unknown"
value expired = "expired"
value reversed = "reversed"
value refunded = "refunded"

-- `status in {...}`
abbrev pub status_in : PaymentStatus → List PaymentStatus → Bool
status_in st [] = false
status_in st (x ∷ xs) = tag st == tag x || status_in st xs

-- `ALLOWED_TRANSITIONS`
unfoldable pub allowed_transitions : PaymentStatus → List PaymentStatus
allowed_transitions initiated = pending ∷ successful ∷ failed ∷ unknown ∷ []
allowed_transitions pending = successful ∷ failed ∷ unknown ∷ expired ∷ []
allowed_transitions unknown = successful ∷ failed ∷ []
allowed_transitions successful = reversed ∷ refunded ∷ []
allowed_transitions failed = []
allowed_transitions expired = []
allowed_transitions reversed = []
allowed_transitions refunded = []

pub record Payment : Type 0 where
  pub id : ℕ
  pub tenant : Tenant
  pub control_number : ControlNumber
  pub provider : PaymentProvider
  pub channel : Option PaymentChannel
  pub status : PaymentStatus
  pub amount : ℤ
  pub currency : String
  pub payer_reference : String
  pub merchant_reference : String
  pub provider_reference : String
  pub idempotency_key : String
  pub initiated_at : ℕ
  pub completed_at : Option ℕ
  pub failure_reason : String
  pub settlement_batch : Option ℕ

-- The statuses that set `completed_at`.
abbrev pub completes : PaymentStatus → Bool
completes st = status_in st (successful ∷ failed ∷ reversed ∷ refunded ∷ [])

-- The assignments of `Payment.transition_to` after its guard.
unfoldable pub enter_status : ℕ → PaymentStatus → String → Payment → Payment
enter_status now st reason p = record p {
  status = st;
  completed_at = if completes st then some now else p.completed_at;
  failure_reason = if str_eq reason "" then p.failure_reason else reason;
}

-- `save(update_fields=["status", "completed_at", "failure_reason", ...])`, on the row.
unfoldable pub store_status : Payment → Payment → Payment
store_status p row = record row {
  status = p.status;
  completed_at = p.completed_at;
  failure_reason = p.failure_reason;
}

-- `save(update_fields=["provider_reference", ...])`, on the row.
unfoldable pub store_reference : Payment → Payment → Payment
store_reference p row = record row { provider_reference = p.provider_reference }

-- `PaymentCallbackEvent.Outcome`
pub data CallbackOutcome : Type 0 where
  processed duplicate unmatched invalid_signature : CallbackOutcome

pub record PaymentCallbackEvent : Type 0 where
  pub id : ℕ
  pub provider : PaymentProvider
  pub external_event_id : String
  pub payment : Option ℕ
  pub outcome : CallbackOutcome
