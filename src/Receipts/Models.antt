-- ===== src/Receipts/Models.antt =====
-- apps/receipts/models.py
use kusanya.Base.{ℕ, String, Option}
use kusanya.Base.Int.{ℤ}
use kusanya.Tenants.Models.{Tenant}

pub record Receipt : Type 0 where
  pub id : ℕ
  pub tenant : Tenant
  pub payment : ℕ
  pub receipt_number : String
  pub issued_at : ℕ
  pub institution_name : String
  pub customer_name : String
  pub bill_number : String
  pub control_number : String
  pub payment_reference : String
  pub amount : ℤ
  pub currency : String
  pub payment_channel_label : String
  pub remaining_balance_at_issue : Option ℤ
