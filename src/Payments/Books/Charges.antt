-- ===== src/Payments/Books/Charges.antt =====
-- The fee of a payment: charged once, by its success, and never again.
use kusanya.Base.{
  ℕ, Bool, true, false, Option, none, some, ◌≡◌, ◌≢◌, refl, sym, subst, ap, ◌∙◌, List, [], ◌∷◌,
  arith, ◌==◌, ==_iff, Bool-cases, Option-cases, inl, inr, if◌then◌else◌,
}
use kusanya.Base.Table.{first, update, count, touched, first-update}
use kusanya.Revenue.Models.{payment_successful, is_event}
use kusanya.Payments.Models.{
  Payment, PaymentStatus, successful, initiated, reversed, refunded, allowed_transitions, status_in,
  store_status, store_reference,
}
use kusanya.Payments.Status.{has_id}
use kusanya.Payments.Books.{
  Books, Step, Evolves, done, next, Holds, has_succeeded, open_payment, learn, move, succeed, note,
  charge, write_row,
}
use kusanya.Payments.Books.Keys.{KeyedBooks, first-fresh, Evolves-IsKeyed}

-- How many fees the revenue events show for the payment with key `i`.
abbrev pub fees_of : ℕ → Books → ℕ
fees_of i b = count (is_event payment_successful i) b.revenue.rows

-- How many it owes: one, if it has ever succeeded.
abbrev pub fees_due : Option Payment → ℕ
fees_due none = 0
fees_due (some p) = if has_succeeded p.status then 1 else 0

pub record IsCharged (b : Books) : Type 0 where
  pub fees : (i : ℕ) → fees_of i b ≡ fees_due (first (has_id i) b.payments.rows)

first-id : (i : ℕ) (rows : List Payment) {x : Payment} → first (has_id i) rows ≡ some x → x.id ≡ i
unfolding first
first-id i [] e = cc
first-id i (y ∷ ys) {x} e = elim (Bool-cases (has_id i y)) [
  | inl here ↦ ground (arith, e, here)
  | inr there ↦ first-id i ys (rw there at e)
]

module _ (b : Books) (p p' : Payment) (held : Holds p b) where
  abbrev written : ℕ → Option Payment
  written i = first (has_id i) (update (has_id p.id) (store_status p') b.payments.rows)

  written-eq :
      (i : ℕ)
      → written i ≡ touched (has_id p.id) (store_status p') (first (has_id i) b.payments.rows)
  unfolding store_status
  written-eq i = first-update (has_id p.id) (has_id i) (store_status p') b.payments.rows (λ x. refl)

  -- The written row owes by its new status.
  due_self : fees_due (written p.id) ≡ (if has_succeeded p'.status then 1 else 0)
  unfolding store_status
  due_self =
      let same_key = first-id p.id b.payments.rows held.1 in
      rw (written-eq p.id, held.1) (ground (arith, same_key))

  -- All others owe what they owed.
  due_other :
      (i : ℕ) → i ≢ p.id → fees_due (written i) ≡ fees_due (first (has_id i) b.payments.rows)
  due_other i ne = elim (Option-cases (first (has_id i) b.payments.rows)) [
    | inl nothing ↦ rw (written-eq i, nothing) refl
    | inr (x, found) ↦
        let key = first-id i b.payments.rows found in
        rw (written-eq i, found) (ground (arith, key, ne))
  ]

  due_before :
      fees_due (first (has_id p.id) b.payments.rows) ≡ (if has_succeeded p.status then 1 else 0)
  due_before = rw held.1 (ground (arith, held.2))

not_yet_succeeded :
    (st : PaymentStatus)
    → status_in successful (allowed_transitions st) ≡ true
    → has_succeeded st ≡ false
unfolding allowed_transitions
not_yet_succeeded initiated h = refl
not_yet_succeeded successful h = cc
not_yet_succeeded reversed h = cc
not_yet_succeeded refunded h = cc
not_yet_succeeded st h = refl

learn_due :
    (p : Payment) (i : ℕ) (rows : List Payment)
    → fees_due (first (has_id i) (update (has_id p.id) (store_reference p) rows))
      ≡ fees_due (first (has_id i) rows)
unfolding store_reference
learn_due p i rows =
    rw (first-update (has_id p.id) (has_id i) (store_reference p) rows (λ x. refl))
      (by_row (first (has_id i) rows))
  where
    by_row :
        (o : Option Payment) → fees_due (touched (has_id p.id) (store_reference p) o) ≡ fees_due o
    by_row none = refl
    by_row (some x) = ground arith

Step-IsCharged : {b c : Books} → Step b c → KeyedBooks b → IsCharged b → IsCharged c
Step-IsCharged {b} (open_payment row ids fresh) k h = record { fees = by_key }
  where
    by_key :
        (i : ℕ) → fees_of i b ≡ fees_due (first (has_id i) (row b.payments.next ∷ b.payments.rows))
    by_key i =
        let new_id = ids b.payments.next in
        let new_status = fresh b.payments.next in
        let unused = first-fresh i b.payments.next b.payments.rows k in
        unfold first in
        elim (Bool-cases (i == b.payments.next)) [
          | inl self ↦
              ground (arith, h.fees i, new_id, new_status, self, unused (ground (arith, self)))
          | inr other ↦ ground (arith, h.fees i, new_id, other)
        ]
Step-IsCharged {b} (learn p) k h = record {
  fees = λ i. h.fees i ∙ sym (learn_due p i b.payments.rows);
}
Step-IsCharged {b} (move p p' held same go fair) k h = record { fees = by_key }
  where
    at_self : fees_of p.id b ≡ fees_due (written b p p' held p.id)
    at_self =
        h.fees p.id
        ∙ due_before b p p' held
        ∙ ap (λ (x : Bool). if x then 1 else 0) (sym fair)
        ∙ sym (due_self b p p' held)

    by_key : (i : ℕ) → fees_of i b ≡ fees_due (written b p p' held i)
    by_key i = elim (Bool-cases (i == p.id)) [
      | inl self ↦
          subst (λ j. fees_of j b ≡ fees_due (written b p p' held j)) (sym ((==_iff i p.id).0 self))
            at_self
      | inr other ↦ h.fees i ∙ sym (due_other b p p' held i (ground (arith, other)))
    ]
Step-IsCharged {b} (succeed p p' held same paid go) k h = record { fees = by_key }
  where
    after : Books
    after = charge p' (write_row (store_status p') p.id b)

    at_self : fees_of p.id after ≡ fees_due (written b p p' held p.id)
    at_self =
        unfold count in
        ground (
          arith,
          h.fees p.id,
          due_before b p p' held,
          due_self b p p' held,
          paid,
          same,
          not_yet_succeeded p.status go,
        )

    by_key : (i : ℕ) → fees_of i after ≡ fees_due (written b p p' held i)
    by_key i = elim (Bool-cases (i == p.id)) [
      | inl self ↦
          subst (λ j. fees_of j after ≡ fees_due (written b p p' held j))
            (sym ((==_iff i p.id).0 self)) at_self
      | inr other ↦
          let else_where = due_other b p p' held i (ground (arith, other)) in
          unfold count in ground (arith, h.fees i, else_where, same, other)
    ]
Step-IsCharged {b} (note event entries new added e) k h = record {
  fees = λ i. unfold count in ground (arith, h.fees i, new b.revenue.next);
}

-- Whatever the books go through, every payment that has succeeded was charged exactly once, and
-- every other one not at all.
pub Evolves-IsCharged : {b c : Books} → Evolves b c → KeyedBooks b → IsCharged b → IsCharged c
Evolves-IsCharged done k h = h
Evolves-IsCharged (next r st) k h =
    Step-IsCharged st (Evolves-IsKeyed r k) (Evolves-IsCharged r k h)
