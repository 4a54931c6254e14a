-- ===== src/Payments/Allocations.antt =====
-- What a success does to the bill that it pays.
use kusanya.Base.{
  Bool, true, Option, none, some, ◌≡◌, refl, ◌∙◌, ap, arith, List, [], ◌∷◌, if◌then◌else◌,
}
use kusanya.Base.Int.{ℤ, pos, ◌+ℤ◌, ◌-ℤ◌, leb_ℤ}
use kusanya.Base.Table.{first, select, sum_of, first-update}
use kusanya.Billing.Models.{
  Bill, BillStatus, PaymentAllocation, status_in, allowed_transitions, enter_status,
}
use kusanya.Billing.Account.{has_bill_id, amount_paid, balance, transition_to}
use kusanya.Payments.Models.{Payment}
use kusanya.Payments.Outcome.{allocate_to, create_allocation, settle_bill, settle_by}
use kusanya.Store.{Store}
use kusanya.Store.Action.{◌>>=◌}

-- The status that an open bill should have when `paid` of it has been paid.
abbrev pub status_after : Bill → ℤ → BillStatus
status_after b paid =
    if leb_ℤ b.total_amount paid then BillStatus.paid else BillStatus.partially_paid

abbrev pub status_of : Option Bill → Option BillStatus
status_of none = none
status_of (some b) = some b.status

moved-status :
    (b : Bill) (st : BillStatus) (s : Store)
    → status_in st (allowed_transitions b.status) ≡ true
    → first (has_bill_id b.id) s.bills.rows ≡ some b
    → status_of (first (has_bill_id b.id) (transition_to b st s).1.bills.rows)
      ≡ some (enter_status s.now st b).status
unfolding transition_to
moved-status b st s go held = rw go (
    rw
      (
        first-update (has_bill_id b.id) (has_bill_id b.id)
            (λ (row : Bill). record row {
              status = (enter_status s.now st b).status;
              issued_at = (enter_status s.now st b).issued_at;
              cancelled_at = (enter_status s.now st b).cancelled_at;
            })
            s.bills.rows (λ x. refl),
        held,
      )
      (ground arith))

settle_by-status :
    (rest : ℤ) (b : Bill) (s : Store)
    → status_in b.status (BillStatus.active ∷ BillStatus.partially_paid ∷ []) ≡ true
    → first (has_bill_id b.id) s.bills.rows ≡ some b
    → status_of (first (has_bill_id b.id) (settle_by rest b s).1.bills.rows)
      ≡ some (if leb_ℤ rest (pos 0) then BillStatus.paid else BillStatus.partially_paid)
unfolding settle_by ◌>>=◌ enter_status allowed_transitions
settle_by-status rest b s open_bill held = ground (
  arith,
  open_bill,
  held,
  moved-status b BillStatus.paid s,
  moved-status b BillStatus.partially_paid s,
)

-- The balance is used up when the paid part reaches the total.
used_up : (total paid : ℤ) → leb_ℤ (total -ℤ paid) (pos 0) ≡ leb_ℤ total paid
unfolding ◌-ℤ◌
used_up total paid = ground arith

paid_after :
    (a : PaymentAllocation) (rows : List PaymentAllocation) (b : Bill)
    → a.bill ≡ b.id
    → amount_paid (a ∷ rows) b ≡ a.amount +ℤ amount_paid rows b
unfolding amount_paid select sum_of
paid_after a rows b e = ground (arith, e)

-- Take a bill that is open, as its row has it. After the full amount of a payment was allocated to
-- it, its row is PAID if the allocations, the new one among them, reach the bill's total, and
-- PARTIALLY_PAID otherwise; overpayment and the second and later parts included.
pub allocate_to-status :
    (p : Payment) (b : Bill) (s : Store)
    → status_in b.status (BillStatus.active ∷ BillStatus.partially_paid ∷ []) ≡ true
    → first (has_bill_id b.id) s.bills.rows ≡ some b
    → status_of (first (has_bill_id b.id) (allocate_to p (some b) s).1.bills.rows)
      ≡ some (status_after b (p.amount +ℤ amount_paid s.allocations.rows b))
unfolding allocate_to create_allocation settle_bill ◌>>=◌ balance
allocate_to-status p b s open_bill held =
    let t : Store = (create_allocation p b s).1 in
    let paid : ℤ = p.amount +ℤ amount_paid s.allocations.rows b in
    let all_paid : amount_paid t.allocations.rows b ≡ paid =
      paid_after _ s.allocations.rows b refl in
    settle_by-status (b.total_amount -ℤ amount_paid t.allocations.rows b) b t open_bill held
    ∙ rw all_paid (
        ap (λ (x : Bool). some (if x then BillStatus.paid else BillStatus.partially_paid))
          (used_up b.total_amount paid))
