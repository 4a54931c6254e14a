-- ===== src/Payments/Books.antt =====
-- The abstract view of the orchestrator: of the whole store only the payments and the two books
-- that money is recorded in, the ledger and the revenue events. `Step` says what may happen to
-- them, with no adapter, message, receipt or request in sight.
pub mod Frames
pub mod Moves
pub mod Outcomes
pub mod Refunds
pub mod Keys
pub mod Answers
pub mod Refines
pub mod Callbacks
pub mod Requests
pub mod Charges
use kusanya.Base.{
  ℕ, suc, Bool, true, false, Option, none, some, List, [], ◌∷◌, ◌++◌, ◌≡◌, ◌≢◌, String, ◌==◌,
}
use kusanya.Base.Int.{ℤ}
use kusanya.Base.Table.{Table, insert, first, update, put_rows}
use kusanya.Core.Objects.{payment}
use kusanya.Ledger.Models.{
  LedgerEntry, LedgerEntryType, LedgerAccount, payment_received, institution_entitlement,
  platform_payment_fee, customer, institution, platform,
}
use kusanya.Revenue.Models.{RevenueEvent, payment_successful}
use kusanya.Revenue.Models
use kusanya.Revenue.Services.{payment_success_fee}
use kusanya.Payments.Models.{
  Payment, PaymentStatus, initiated, successful, reversed, refunded, allowed_transitions, status_in,
  store_status, store_reference,
}
use kusanya.Payments.Status.{has_id}
use kusanya.Store.{Store}

pub record Books : Type 0 where
  pub payments : Table Payment
  pub ledger : Table LedgerEntry
  pub revenue : Table RevenueEvent

abbrev pub books : Store → Books
books s = record { payments = s.payments; ledger = s.ledger; revenue = s.revenue }

abbrev pub write_row : (Payment → Payment) → ℕ → Books → Books
write_row f i b = record b { payments = put_rows b.payments (update (has_id i) f b.payments.rows) }

-- The statuses of a payment that has once succeeded.
abbrev pub has_succeeded : PaymentStatus → Bool
has_succeeded successful = true
has_succeeded reversed = true
has_succeeded refunded = true
has_succeeded _ = false

abbrev pub ledger_row : Payment → LedgerEntryType → LedgerAccount → ℤ → ℕ → LedgerEntry
ledger_row p ty account amount id = record {
  id = id;
  tenant = p.tenant;
  entry_type = ty;
  account = account;
  amount = amount;
  currency = p.currency;
  reference = p.merchant_reference;
  source = some (payment p.id);
  related_entry = none;
}

-- The three entries of a successful payment, the last one first.
abbrev pub charged_ledger : Payment → Table LedgerEntry → Table LedgerEntry
charged_ledger p t =
    insert
      (insert (insert t (ledger_row p payment_received customer p.amount))
        (ledger_row p institution_entitlement institution p.amount))
      (ledger_row p platform_payment_fee platform payment_success_fee)

abbrev pub fee_event : Payment → Table LedgerEntry → ℕ → RevenueEvent
fee_event p t id = record {
  id = id;
  tenant = p.tenant;
  event_type = payment_successful;
  amount = payment_success_fee;
  currency = p.currency;
  source = payment p.id;
  ledger_entry =
      some (ledger_row p platform_payment_fee platform payment_success_fee (suc (suc t.next)));
}

-- What one success records: the three ledger entries and the one fee.
abbrev pub charge : Payment → Books → Books
charge p b = record b {
  ledger = charged_ledger p b.ledger;
  revenue = insert b.revenue (fee_event p b.ledger);
}

-- The row of `p` stands in the table, in the status that the caller sees.
abbrev pub Holds : Payment → Books → Type 0
Holds p b = (q : Payment) × (first (has_id p.id) b.payments.rows ≡ some q) × (q.status ≡ p.status)

pub data Step (b : Books) : Books → Type 0 where
  open_payment :
      (row : ℕ → Payment)
      → ((i : ℕ) → (row i).id ≡ i)
      → ((i : ℕ) → (row i).status ≡ initiated)
      → Step b (record b { payments = insert b.payments row })
  learn : (p : Payment) → Step b (write_row (store_reference p) p.id b)
  -- a status change that is no success and undoes none
  move :
      (p p' : Payment)
      → Holds p b
      → p'.id ≡ p.id
      → status_in p'.status (allowed_transitions p.status) ≡ true
      → has_succeeded p'.status ≡ has_succeeded p.status
      → Step b (write_row (store_status p') p.id b)
  succeed :
      (p p' : Payment)
      → Holds p b
      → p'.id ≡ p.id
      → p'.status ≡ successful
      → status_in successful (allowed_transitions p.status) ≡ true
      → Step b (charge p' (write_row (store_status p') p.id b))
  -- any other event, with the ledger entry that may belong to it
  note :
      (event : ℕ → RevenueEvent) (entries : Table LedgerEntry)
      → ((i : ℕ) → Models.tag (event i).event_type ≢ Models.tag payment_successful)
      → (added : List LedgerEntry) → entries.rows ≡ added ++ b.ledger.rows
      → Step b (record b { ledger = entries; revenue = insert b.revenue event })

pub data Evolves (b : Books) : Books → Type 0 where
  done : Evolves b b
  next : {c d : Books} → Evolves b c → Step c d → Evolves b d

pub Evolves-trans : {a b c : Books} → Evolves a b → Evolves b c → Evolves a c
Evolves-trans r done = r
Evolves-trans r (next q st) = next (Evolves-trans r q) st
