-- ===== src/Settlement/Claims.antt =====
-- What a settlement batch takes: each payment once, and all that are due.
use kusanya.Base.{
  ℕ, ◌≤◌, Bool, true, false, Option, none, some, List, [], ◌∷◌, ◌≡◌, refl, sym, subst, ap, ◌∙◌,
  arith, ◌==◌, Bool-cases, inl, inr,
}
use kusanya.Base.Int.{◌+ℤ◌}
use kusanya.Base.Table.{select, update, exists, sum_of, select-taken, select-skipped}
use kusanya.Core.Result.{ok}
use kusanya.Payments.Models.{Payment}
use kusanya.Payments.Books.Keys.{IsKeyed}
use kusanya.Settlement.Models.{SettlementBatch}
use kusanya.Settlement.Services.{
  Period, is_due, is_among, settle_in, gross_of, generate_settlement_batch, batch_of, insert_batch,
}
use kusanya.Store.{Store}
use kusanya.Store.Action.{◌>>=◌, atomic}

abbrev due_of : Period → Store → List Payment
due_of r s = select (is_due r) s.payments.rows

-- What a run that answers has done.
record Ran (r : Period) (s t : Store) (b : SettlementBatch) : Type 0 where
  rows : t.payments.rows ≡ update (is_among (due_of r s)) (settle_in b.id) s.payments.rows
  gross : b.gross_amount ≡ gross_of (due_of r s)
  fresh : b.id ≡ s.batches.next

generate-Ran :
    (r : Period) (actor : Option ℕ) (s : Store) {b : SettlementBatch} {t : Store}
    → generate_settlement_batch r actor s ≡ (ok b, t)
    → Ran r s t b
unfolding generate_settlement_batch batch_of insert_batch ◌>>=◌ atomic
generate-Ran r actor s h = record {
  rows = ground (arith, h);
  gross = ground (arith, h);
  fresh = ground (arith, h);
}

-- Every row that is due is among the payments that were read.
abbrev Covered : Period → List Payment → List Payment → Type 0
Covered r sel [] = Unit
Covered r sel (x ∷ xs) = (is_due r x ≡ true → is_among sel x ≡ true) × Covered r sel xs

Covered-more :
    (r : Period) (y : Payment) (sel rows : List Payment)
    → Covered r sel rows
    → Covered r (y ∷ sel) rows
Covered-more r y sel [] c = tt
Covered-more r y sel (x ∷ xs) c =
    (λ due. unfold is_among exists in ground (arith, c.0 due), Covered-more r y sel xs c.1)

select-Covered : (r : Period) (rows : List Payment) → Covered r (select (is_due r) rows) rows
select-Covered r [] = tt
select-Covered r (x ∷ xs) = elim (Bool-cases (is_due r x)) [
  | inl e ↦
      subst (λ sel. Covered r sel (x ∷ xs)) (sym (select-taken (is_due r) x xs e))
        (
          λ due. unfold is_among exists in ground arith,
          Covered-more r x (select (is_due r) xs) xs (select-Covered r xs),
        )
  | inr e ↦
      subst (λ sel. Covered r sel (x ∷ xs)) (sym (select-skipped (is_due r) x xs e))
        (λ due. absurd (ground (arith, e, due)), select-Covered r xs)
]

settled_not_due : (r : Period) (batch : ℕ) (p : Payment) → is_due r (settle_in batch p) ≡ false
unfolding is_due
settled_not_due r batch p = ground arith

nothing_due :
    (r : Period) (batch : ℕ) (sel rows : List Payment)
    → Covered r sel rows
    → select (is_due r) (update (is_among sel) (settle_in batch) rows) ≡ []
unfolding select update
nothing_due r batch sel [] c = refl
nothing_due r batch sel (x ∷ xs) c = elim (Bool-cases (is_among sel x)) [
  | inl e ↦ rw (e, settled_not_due r batch x) (nothing_due r batch sel xs c.1)
  | inr e ↦
      let stays : is_due r x ≡ false = ground (arith, c.0, e) in
      rw (e, stays) (nothing_due r batch sel xs c.1)
]

-- After a batch was generated, no payment is due any more for the same tenant, provider and period:
-- a second run would take none of them again.
pub generate_settlement_batch-settles :
    (r : Period) (actor : Option ℕ) (s : Store) {b : SettlementBatch} {t : Store}
    → generate_settlement_batch r actor s ≡ (ok b, t)
    → select (is_due r) t.payments.rows ≡ []
generate_settlement_batch-settles r actor s {b} h =
    let ran = generate-Ran r actor s h in
    rw ran.rows (nothing_due r b.id (due_of r s) s.payments.rows (select-Covered r s.payments.rows))

-- The payment points at the batch.
abbrev pub is_settled_in : ℕ → Payment → Bool
is_settled_in batch p = elim p.settlement_batch [ none ↦ false | some i ↦ i == batch ]

-- Among the rows, those that were read are those that are due, and no row points at the batch yet.
abbrev Agrees : Period → ℕ → List Payment → List Payment → Type 0
Agrees r batch sel [] = Unit
Agrees r batch sel (x ∷ xs) =
    (is_among sel x ≡ is_due r x) × ((is_settled_in batch x ≡ false) × Agrees r batch sel xs)

settled_gross :
    (r : Period) (batch : ℕ) (sel rows : List Payment)
    → Agrees r batch sel rows
    → gross_of (select (is_settled_in batch) (update (is_among sel) (settle_in batch) rows))
      ≡ gross_of (select (is_due r) rows)
unfolding select update sum_of
settled_gross r batch sel [] g = refl
settled_gross r batch sel (x ∷ xs) g = elim (Bool-cases (is_due r x)) [
  | inl e ↦
      let here : is_among sel x ≡ true = g.0 ∙ e in
      let mine : (batch == batch) ≡ true = ground arith in
      rw (here, e, mine) (ap (λ rest. x.amount +ℤ rest) (settled_gross r batch sel xs g.1.1))
  | inr e ↦
      let here : is_among sel x ≡ false = g.0 ∙ e in
      rw (here, e, g.1.0) (settled_gross r batch sel xs g.1.1)
]

-- A payment whose key is below the bound is not one that stands at it.
Agrees-below :
    (r : Period) (batch : ℕ) (y : Payment) (n : ℕ) (sel rows : List Payment)
    → IsKeyed n rows
    → n ≤ y.id
    → Agrees r batch sel rows
    → Agrees r batch (y ∷ sel) rows
Agrees-below r batch y n sel [] k h g = tt
Agrees-below r batch y n sel (x ∷ xs) k h g = (
  unfold is_among exists in ground (arith, k.0, h, g.0),
  (g.1.0, Agrees-below r batch y x.id sel xs k.1 (omega (arith, k.0, h)) g.1.1),
)

-- Nothing with a key from the bound on is found among rows below it.
none_from :
    (r : Period) (n : ℕ) (y : Payment) (rows : List Payment)
    → IsKeyed n rows
    → n ≤ y.id
    → is_among (select (is_due r) rows) y ≡ false
unfolding is_among exists select
none_from r n y [] k h = refl
none_from r n y (x ∷ xs) k h =
    let later = none_from r x.id y xs k.1 (omega (arith, k.0, h)) in ground (arith, k.0, h, later)

-- No row points at the batch.
abbrev pub Untouched : ℕ → List Payment → Type 0
Untouched batch rows = select (is_settled_in batch) rows ≡ []

select-Agrees :
    (r : Period) (batch n : ℕ) (rows : List Payment)
    → IsKeyed n rows
    → Untouched batch rows
    → Agrees r batch (select (is_due r) rows) rows
select-Agrees r batch n [] k u = tt
select-Agrees r batch n (x ∷ xs) k u = elim (Bool-cases (is_settled_in batch x)) [
  | inl e ↦ absurd (ground (arith, u, select-taken (is_settled_in batch) x xs e))
  | inr free ↦
      let rest =
        select-Agrees r batch x.id xs k.1
          (sym (select-skipped (is_settled_in batch) x xs free) ∙ u) in
      elim (Bool-cases (is_due r x)) [
        | inl e ↦
            subst (λ sel. Agrees r batch sel (x ∷ xs)) (sym (select-taken (is_due r) x xs e))
              (
                unfold is_among exists in ground (arith, e),
                (
                  free,
                  Agrees-below r batch x x.id (select (is_due r) xs) xs k.1 (omega arith) rest,
                ),
              )
        | inr e ↦
            subst (λ sel. Agrees r batch sel (x ∷ xs)) (sym (select-skipped (is_due r) x xs e))
              (none_from r x.id x xs k.1 (omega arith) ∙ sym e, (free, rest))
      ]
]

-- In a store with unique payment keys in which no payment points at the next batch's key, the gross
-- amount of a generated batch is the sum of the amounts of exactly the payments that then point at
-- the batch.
pub generate_settlement_batch-gross :
    (r : Period) (actor : Option ℕ) (s : Store) {b : SettlementBatch} {t : Store}
    → IsKeyed s.payments.next s.payments.rows
    → Untouched s.batches.next s.payments.rows
    → generate_settlement_batch r actor s ≡ (ok b, t)
    → b.gross_amount ≡ gross_of (select (is_settled_in b.id) t.payments.rows)
generate_settlement_batch-gross r actor s {b} {t} k u h =
    let ran = generate-Ran r actor s h in
    let apart : Untouched b.id s.payments.rows =
      subst (λ i. Untouched i s.payments.rows) (sym ran.fresh) u in
    ran.gross
    ∙ sym (
        settled_gross r b.id (due_of r s) s.payments.rows
          (select-Agrees r b.id s.payments.next s.payments.rows k apart))
    ∙ ap (λ rows. gross_of (select (is_settled_in b.id) rows)) (sym ran.rows)
