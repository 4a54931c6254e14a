-- ===== src/Billing/Account.antt =====
-- apps/billing/models.py: the methods of `Bill` that read or write the database.
use kusanya.Base.{ℕ, Bool, Option, none, some, List, ◌==◌, if◌then◌else◌}
use kusanya.Base.Int.{ℤ, ◌-ℤ◌}
use kusanya.Base.Table.{first, select, update, sum_of, put_rows}
use kusanya.Core.Result.{ok, err, validation, does_not_exist}
use kusanya.ControlNumbers.Models.{Owner}
use kusanya.Billing.Models.{
  Bill, BillItem, BillStatus, PaymentAllocation, status_in, allowed_transitions, enter_status,
}
use kusanya.Store.Action.{Action, pure, gets, or_raise, ◌>>=◌}

abbrev pub has_bill_id : ℕ → Bill → Bool
has_bill_id i b = b.id == i

abbrev pub is_allocation_of : ℕ → PaymentAllocation → Bool
is_allocation_of i a = a.bill == i

-- `Bill.amount_paid`
unfoldable pub amount_paid : List PaymentAllocation → Bill → ℤ
amount_paid allocations b =
    sum_of (λ (a : PaymentAllocation). a.amount) (select (is_allocation_of b.id) allocations)

-- `Bill.balance`
unfoldable pub balance : List PaymentAllocation → Bill → ℤ
balance allocations b = b.total_amount -ℤ amount_paid allocations b

-- `Bill.transition_to`
unfoldable pub transition_to : Bill → BillStatus → Action Bill
transition_to b st s =
    let b' = enter_status s.now st b in
    if status_in st (allowed_transitions b.status)
    then (
      ok b',
      record s {
        bills = put_rows s.bills (
            update (has_bill_id b.id)
              (λ row. record row {
                status = b'.status;
                issued_at = b'.issued_at;
                cancelled_at = b'.cancelled_at;
              })
              s.bills.rows);
      },
    )
    else (err validation, s)

-- `Bill.recalculate_total`
unfoldable pub recalculate_total : Bill → Action Bill
recalculate_total b s =
    let total =
      sum_of (λ (i : BillItem). i.line_total)
        (select (λ (i : BillItem). i.bill == b.id) s.items.rows) in
    (
      ok (record b { total_amount = total }),
      record s {
        bills =
            put_rows s.bills
              (update (has_bill_id b.id) (λ row. record row { total_amount = total }) s.bills.rows);
      },
    )

-- `control_number.bill`
unfoldable pub bill_of : Owner → Action (Option Bill)
bill_of (Owner.account a) = pure none
bill_of (Owner.bill i) = do
  found ← gets (λ s. first (has_bill_id i) s.bills.rows)
  b ← or_raise found does_not_exist
  pure (some b)
