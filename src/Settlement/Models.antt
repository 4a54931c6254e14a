-- ===== src/Settlement/Models.antt =====
-- apps/settlement/models.py
use kusanya.Base.{ℕ, String, Option}
use kusanya.Base.Int.{ℤ}
use kusanya.Tenants.Models.{Tenant}
use kusanya.Providers.Models.{PaymentProvider}

pub data SettlementStatus : Type 0 where
  pending completed exception : SettlementStatus

pub record SettlementBatch : Type 0 where
  pub id : ℕ
  pub tenant : Tenant
  pub provider : PaymentProvider
  pub reference : String
  pub period_start : ℕ
  pub period_end : ℕ
  pub gross_amount : ℤ
  pub platform_fee_total : ℤ
  pub provider_fee_total : ℤ
  pub net_amount : ℤ
  pub currency : String
  pub status : SettlementStatus
  pub settlement_date : Option ℕ
  pub external_settlement_reference : String
