-- ===== src/Ledger/Models.antt =====
-- apps/ledger/models.py
use kusanya.Base.{ℕ, String, Option}
use kusanya.Base.Int.{ℤ}
use kusanya.Core.Objects.{Object}
use kusanya.Tenants.Models.{Tenant}

pub data LedgerEntryType : Type 0 where
  bill_amount payment_received institution_entitlement platform_control_number_fee : LedgerEntryType
  platform_payment_fee provider_fee refund reversal settlement adjustment : LedgerEntryType

pub data LedgerAccount : Type 0 where
  customer institution platform provider suspense : LedgerAccount

pub record LedgerEntry : Type 0 where
  pub id : ℕ
  pub tenant : Tenant
  pub entry_type : LedgerEntryType
  pub account : LedgerAccount
  pub amount : ℤ
  pub currency : String
  pub reference : String
  pub source : Option Object
  pub related_entry : Option ℕ
