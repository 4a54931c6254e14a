-- ===== src/Customers/Models.antt =====
-- apps/customers/models.py: `Customer` and `CustomerAccount`, without the lookup hashes, the
-- revenue source and the free metadata.
use kusanya.Base.{ℕ, String, Bool}
use kusanya.Tenants.Models.{Tenant}

pub record Customer : Type 0 where
  pub id : ℕ
  pub full_name : String
  pub email : String
  pub phone_number : String
  pub tenant : Tenant
  pub external_reference : String
  pub is_active : Bool

pub record CustomerAccount : Type 0 where
  pub id : ℕ
  pub customer : Customer
  pub name : String
  pub tenant : Tenant
  pub external_reference : String
  pub is_active : Bool
