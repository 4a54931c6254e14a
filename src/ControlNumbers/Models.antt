-- ===== src/ControlNumbers/Models.antt =====
-- apps/control_numbers/models.py
use kusanya.Base.{ℕ, String, Option}
use kusanya.Tenants.Models.{Tenant}
use kusanya.Customers.Models.{CustomerAccount}

pub data ControlNumberScope : Type 0 where
  one_time persistent : ControlNumberScope

pub data ControlNumberStatus : Type 0 where
  active expired cancelled : ControlNumberStatus

-- The check constraint `control_number_exactly_one_owner`: a bill (by its primary key) or an
-- account, and never both.
pub data Owner : Type 0 where
  bill : ℕ → Owner
  account : CustomerAccount → Owner

pub record ControlNumber : Type 0 where
  pub id : ℕ
  pub tenant : Tenant
  pub value : String
  pub scope : ControlNumberScope
  pub status : ControlNumberStatus
  pub owner : Owner
  pub expires_at : Option ℕ
  pub cancelled_at : Option ℕ
  pub created_by : Option ℕ
