-- ===== src/Revenue/Models.antt =====
-- apps/revenue/models.py
use kusanya.Base.{ℕ, String, Option, Bool, ◌&&◌, ◌==◌}
use kusanya.Base.Int.{ℤ}
use kusanya.Core.Objects.{Object, is_payment}
use kusanya.Tenants.Models.{Tenant}
use kusanya.Ledger.Models.{LedgerEntry}

pub data RevenueEventType : Type 0 where
  control_number_created control_number_reused payment_successful payment_failed : RevenueEventType
  payment_duplicate payment_reversed payment_refunded : RevenueEventType

-- `==` on the members of `RevenueEventType`, by their place in the declaration.
abbrev pub tag : RevenueEventType → ℕ
tag control_number_created = 0
tag control_number_reused = 1
tag payment_successful = 2
tag payment_failed = 3
tag payment_duplicate = 4
tag payment_reversed = 5
tag payment_refunded = 6

-- The foreign key `ledger_entry` is the entry itself: ledger entries never change.
pub record RevenueEvent : Type 0 where
  pub id : ℕ
  pub tenant : Tenant
  pub event_type : RevenueEventType
  pub amount : ℤ
  pub currency : String
  pub source : Object
  pub ledger_entry : Option LedgerEntry

-- `event_type=..., content_type=<Payment>, object_id=...`
abbrev pub is_event : RevenueEventType → ℕ → RevenueEvent → Bool
is_event ty i e = (tag e.event_type == tag ty) && is_payment i e.source
