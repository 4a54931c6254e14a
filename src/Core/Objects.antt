-- ===== src/Core/Objects.antt =====
-- A generic foreign key (`content_type`, `object_id`): which model, and the primary key. And the
-- values of a notification's context and of a webhook's payload.
use kusanya.Base.{ℕ, String, Bool, false, ◌==◌}
use kusanya.Base.Int.{ℤ}

pub data Object : Type 0 where
  payment control_number bill callback_event settlement_batch exception : ℕ → Object
  mfa_device backup_code api_credential customer customer_account : ℕ → Object
  tenant_membership : ℕ → Object

-- The object is the payment with this primary key.
abbrev pub is_payment : ℕ → Object → Bool
is_payment i (payment j) = i == j
is_payment i _ = false

-- A text, or what `str` is applied to: a `Decimal` or a primary key; or `None`.
pub data Value : Type 0 where
  text : String → Value
  money : ℤ → Value
  key : ℕ → Value
  null : Value
