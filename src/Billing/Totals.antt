-- ===== src/Billing/Totals.antt =====
-- What a created bill amounts to.
use kusanya.Base.{ℕ, Bool, ◌≡◌, refl, sym, ap, ◌∙◌, arith, List, [], ◌∷◌, ◌==◌}
use kusanya.Base.Int.{ℤ, pos, ◌+ℤ◌, ◌*ℤ◌, eq_of_parts, +ℤ_parts, zero_+ℤ, +ℤ_zero}
use kusanya.Base.Table.{Table, select, sum_of}
use kusanya.Core.Result.{ok}
use kusanya.Billing.Models.{Bill, BillItem}
use kusanya.Billing.Account.{recalculate_total}
use kusanya.Billing.Services.{BillRequest, Item, add_items, create_bill, insert_bill}
use kusanya.Store.{Store}
use kusanya.Store.Action.{◌>>=◌}

-- Quantity times unit amount, as the column keeps it, over all items.
abbrev pub items_total : (ℤ → ℤ) → List Item → ℤ
items_total round [] = pos 0
items_total round (i ∷ is) = round (i.quantity *ℤ i.unit_amount) +ℤ items_total round is

abbrev pub is_item_of : ℕ → BillItem → Bool
is_item_of bill i = i.bill == bill

abbrev pub billed_total : ℕ → List BillItem → ℤ
billed_total bill rows = sum_of (λ (i : BillItem). i.line_total) (select (is_item_of bill) rows)

move_over : (a b c : ℤ) → b +ℤ (a +ℤ c) ≡ (a +ℤ b) +ℤ c
move_over a b c =
    eq_of_parts (b +ℤ (a +ℤ c)) ((a +ℤ b) +ℤ c)
      (omega (arith, +ℤ_parts b (a +ℤ c), +ℤ_parts a c, +ℤ_parts (a +ℤ b) c, +ℤ_parts a b))

one_item :
    (bill : ℕ) (i : BillItem) (rows : List BillItem)
    → i.bill ≡ bill
    → billed_total bill (i ∷ rows) ≡ i.line_total +ℤ billed_total bill rows
unfolding select sum_of
one_item bill i rows e = ground (arith, e)

add_items-total :
    (round : ℤ → ℤ) (bill : ℕ) (is : List Item) (t : Table BillItem)
    → billed_total bill (add_items round bill is t).rows
      ≡ items_total round is +ℤ billed_total bill t.rows
unfolding add_items
add_items-total round bill [] t = sym (zero_+ℤ (billed_total bill t.rows))
add_items-total round bill (i ∷ is) t =
    add_items-total round bill is _
    ∙ ap (λ x. items_total round is +ℤ x) (one_item bill _ t.rows refl)
    ∙ move_over (round (i.quantity *ℤ i.unit_amount)) (items_total round is)
        (billed_total bill t.rows)

create_bill-sum :
    (r : BillRequest) (s : Store) {b : Bill} {t : Store}
    → create_bill r s ≡ (ok b, t)
    → b.total_amount
      ≡ billed_total s.bills.next (add_items s.round_column s.bills.next r.items s.items).rows
unfolding create_bill insert_bill recalculate_total ◌>>=◌
create_bill-sum r s h = ground (arith, h)

-- The total of a bill that was created is the sum over the requested items of quantity times unit
-- amount, each rounded by its column before it is added, where no item in the table belongs to the new bill's key yet.
pub create_bill-total :
    (r : BillRequest) (s : Store) {b : Bill} {t : Store}
    → select (is_item_of s.bills.next) s.items.rows ≡ []
    → create_bill r s ≡ (ok b, t)
    → b.total_amount ≡ items_total s.round_column r.items
unfolding sum_of
create_bill-total r s fresh h =
    create_bill-sum r s h
    ∙ add_items-total s.round_column s.bills.next r.items s.items
    ∙ ap
        (λ rows. items_total s.round_column r.items +ℤ sum_of (λ (i : BillItem). i.line_total) rows)
        fresh
    ∙ +ℤ_zero (items_total s.round_column r.items)
