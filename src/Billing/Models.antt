-- ===== src/Billing/Models.antt =====
-- apps/billing/models.py
use kusanya.Base.{ℕ, String, Bool, false, Option, none, some, List, [], ◌∷◌, ◌||◌, ◌==◌}
use kusanya.Base.Int.{ℤ}
use kusanya.Tenants.Models.{Tenant}
use kusanya.Customers.Models.{CustomerAccount}

pub data BillStatus : Type 0 where
  draft active partially_paid paid expired cancelled disputed : BillStatus

-- `==` on the members of `BillStatus`, by their place in the declaration.
abbrev pub tag : BillStatus → ℕ
tag draft = 0
tag active = 1
tag partially_paid = 2
tag paid = 3
tag expired = 4
tag cancelled = 5
tag disputed = 6

-- `status in {...}`
abbrev pub status_in : BillStatus → List BillStatus → Bool
status_in st [] = false
status_in st (x ∷ xs) = tag st == tag x || status_in st xs

-- `ALLOWED_TRANSITIONS`
unfoldable pub allowed_transitions : BillStatus → List BillStatus
allowed_transitions draft = active ∷ cancelled ∷ []
allowed_transitions active = partially_paid ∷ paid ∷ expired ∷ cancelled ∷ disputed ∷ []
allowed_transitions partially_paid = paid ∷ disputed ∷ cancelled ∷ []
allowed_transitions paid = disputed ∷ []
allowed_transitions expired = []
allowed_transitions cancelled = []
allowed_transitions disputed = active ∷ partially_paid ∷ paid ∷ []

pub record Bill : Type 0 where
  pub id : ℕ
  pub tenant : Tenant
  pub customer_account : CustomerAccount
  pub bill_number : String
  pub status : BillStatus
  pub currency : String
  pub total_amount : ℤ
  pub due_date : Option ℕ
  pub issued_at : Option ℕ
  pub cancelled_at : Option ℕ
  pub external_reference : String

pub record BillItem : Type 0 where
  pub id : ℕ
  pub bill : ℕ
  pub description : String
  pub line_total : ℤ

-- The row of `PaymentAllocation` (apps/payments/models.py), which `Bill.amount_paid` sums.
pub record PaymentAllocation : Type 0 where
  pub id : ℕ
  pub tenant : Tenant
  pub payment : ℕ
  pub bill : ℕ
  pub amount : ℤ

abbrev first_issue : Option ℕ → ℕ → Option ℕ
first_issue none now = some now
first_issue (some t) now = some t

-- The assignments of `Bill.transition_to` after its guard.
unfoldable pub enter_status : ℕ → BillStatus → Bill → Bill
enter_status now active b = record b { status = active; issued_at = first_issue b.issued_at now }
enter_status now cancelled b = record b { status = cancelled; cancelled_at = some now }
enter_status now st b = record b { status = st }
