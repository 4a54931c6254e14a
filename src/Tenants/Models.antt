-- ===== src/Tenants/Models.antt =====
-- apps/tenants/models.py: the fields of `Tenant` that the financial services read.
use kusanya.Base.{ℕ, String, Bool, true, false}

pub data FeeRefundPolicy : Type 0 where
  clawback retain : FeeRefundPolicy

pub record Tenant : Type 0 where
  pub id : ℕ
  pub name : String
  pub default_currency : String
  pub fee_refund_policy : FeeRefundPolicy

-- `Tenant.Status`, which the API reads.
pub data TenantStatus : Type 0 where
  pending active suspended rejected : TenantStatus

abbrev pub is_active_status : TenantStatus → Bool
is_active_status TenantStatus.active = true
is_active_status _ = false
