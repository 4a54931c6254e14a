-- ===== src/Receipts/Services.antt =====
-- apps/receipts/services.py
use Prim.Native.String.{◌++◌}
use kusanya.Base.{ℕ, String, Bool, Option, none, some, ◌&&◌, ◌||◌, ◌==◌, str_eq, if◌then◌else◌}
use kusanya.Base.Table.{insert, first, exists}
use kusanya.Core.Result.{ok, err, validation, does_not_exist}
use kusanya.ControlNumbers.Models.{Owner}
use kusanya.Billing.Models.{Bill}
use kusanya.Billing.Account.{bill_of, balance}
use kusanya.Providers.Models.{PaymentChannel, PaymentProvider, channel_label, provider_label}
use kusanya.Payments.Models.{Payment, successful, tag}
use kusanya.Receipts.Models.{Receipt}
use kusanya.Store.{Store}
use kusanya.Store.Action.{Action, gets, draw, or_raise, ◌>>=◌}

abbrev pub is_receipt_of : ℕ → Receipt → Bool
is_receipt_of i r = r.payment == i

-- What the two unique constraints on `Receipt` refuse.
abbrev pub clashes : Receipt → Receipt → Bool
clashes new r =
    (r.payment == new.payment)
    || ((r.tenant.id == new.tenant.id) && str_eq r.receipt_number new.receipt_number)

-- `Receipt.objects.create`, and the `get` that follows an `IntegrityError`.
unfoldable pub create_receipt : (ℕ → Receipt) → Action Receipt
create_receipt row s =
    if exists (clashes (row s.receipts.next)) s.receipts.rows
    then or_raise (first (is_receipt_of (row 0).payment) s.receipts.rows) does_not_exist s
    else (ok (row s.receipts.next), record s { receipts = insert s.receipts row })

abbrev payer_name : Owner → Option Bill → String
payer_name (Owner.account a) b = a.customer.full_name
payer_name (Owner.bill i) none = ""
payer_name (Owner.bill i) (some b) = b.customer_account.customer.full_name

abbrev pub number_of : Option Bill → String
number_of none = ""
number_of (some b) = b.bill_number

abbrev label_of : Option PaymentChannel → PaymentProvider → String
label_of (some c) p = channel_label c
label_of none p = provider_label p

-- The row that `generate_receipt` writes; `Receipt.save` draws the number.
abbrev pub receipt_row : Payment → Option Bill → Store → String → ℕ → Receipt
receipt_row p b s number id = record {
  id = id;
  tenant = p.tenant;
  payment = p.id;
  receipt_number = "RCPT-" ++ (s.date ++ ("-" ++ number));
  issued_at = s.now;
  institution_name = p.tenant.name;
  customer_name = payer_name p.control_number.owner b;
  bill_number = number_of b;
  control_number = p.control_number.value;
  payment_reference = p.merchant_reference;
  amount = p.amount;
  currency = p.currency;
  payment_channel_label = label_of p.channel p.provider;
  remaining_balance_at_issue = elim b [
    | none ↦ none
    | some bill ↦ some (balance s.allocations.rows bill)
  ];
}

unfoldable pub issue_receipt : Payment → Action Receipt
unfolding bill_of draw create_receipt
issue_receipt p = do
  bill ← bill_of p.control_number.owner
  now ← gets (λ s. s)
  number ← draw
  create_receipt (receipt_row p bill now number)

-- `generate_receipt`
unfoldable pub generate_receipt : Payment → Action Receipt
unfolding issue_receipt
generate_receipt p s = elim (first (is_receipt_of p.id) s.receipts.rows) [
  | some existing ↦ (ok existing, s)
  | none ↦ if tag p.status == tag successful then issue_receipt p s else (err validation, s)
]
