-- ===== src/Ledger/Services.antt =====
-- apps/ledger/services.py. The correlation id and the free `metadata` are not modelled.
use kusanya.Base.{ℕ, String, Option, some}
use kusanya.Base.Int.{ℤ}
use kusanya.Base.Table.{insert}
use kusanya.Core.Result.{ok}
use kusanya.Core.Objects.{Object}
use kusanya.Tenants.Models.{Tenant}
use kusanya.Ledger.Models.{LedgerEntry, LedgerEntryType, LedgerAccount}
use kusanya.Store.Action.{Action}

abbrev pub new_entry :
    Tenant
    → LedgerEntryType
    → LedgerAccount
    → ℤ
    → String
    → String
    → Option Object
    → Option ℕ
    → ℕ
    → LedgerEntry
new_entry tenant entry_type account amount currency reference source related_entry id = record {
  id = id;
  tenant = tenant;
  entry_type = entry_type;
  account = account;
  amount = amount;
  currency = currency;
  reference = reference;
  source = source;
  related_entry = related_entry;
}

unfoldable pub post_entry :
    Tenant
    → LedgerEntryType
    → LedgerAccount
    → ℤ
    → String
    → String
    → Option Object
    → Option ℕ
    → Action LedgerEntry
post_entry tenant entry_type account amount currency reference source related_entry s =
    let entry : ℕ → LedgerEntry =
      new_entry tenant entry_type account amount currency reference source related_entry in
    (ok (entry s.ledger.next), record s { ledger = insert s.ledger entry })

-- The tenant, account, currency, reference and source are those of the original.
unfoldable pub post_compensating_entry : LedgerEntry → LedgerEntryType → ℤ → Action LedgerEntry
unfolding post_entry
post_compensating_entry original entry_type amount =
    post_entry original.tenant entry_type original.account amount original.currency
      original.reference original.source (some original.id)
