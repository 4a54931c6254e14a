-- ===== src/Payments/Books/Keys.antt =====
-- The primary keys of the payments: every row has its own, below the next one to be given.
use kusanya.Base.{
  ℕ, suc, ◌<◌, Bool, true, false, none, some, ◌≡◌, refl, sym, subst, ◌≤◌, List, [], ◌∷◌, arith,
  Bool-cases, inl, inr, if◌then◌else◌,
}
use kusanya.Base.Table.{first, update}
use kusanya.Payments.Models.{Payment, store_status, store_reference}
use kusanya.Payments.Status.{has_id}
use kusanya.Payments.Books.{
  Books, Step, Evolves, done, next, open_payment, learn, move, succeed, note,
}

-- Newest first, the keys fall.
abbrev pub IsKeyed : ℕ → List Payment → Type 0
IsKeyed n [] = Unit
IsKeyed n (p ∷ ps) = (p.id < n) × IsKeyed p.id ps

-- Every row that a search finds has a key below the bound.
pub first-lt :
    (q : Payment → Bool) (n : ℕ) (rows : List Payment) {p : Payment}
    → IsKeyed n rows
    → first q rows ≡ some p
    → p.id < n
unfolding first
first-lt q n [] k e = cc
first-lt q n (x ∷ xs) {p} k e = elim (Bool-cases (q x)) [
  | inl here ↦ ground (arith, e, here, k.0)
  | inr there ↦
      let later : first q xs ≡ some p = ground (arith, e, there) in
      let below = first-lt q x.id xs k.1 later in omega (arith, below)
]

-- Any search that finds a payment finds the one row of its key.
pub first-has_id :
    (q : Payment → Bool) (n : ℕ) (rows : List Payment) {p : Payment}
    → IsKeyed n rows
    → first q rows ≡ some p
    → first (has_id p.id) rows ≡ some p
unfolding first
first-has_id q n [] k e = cc
first-has_id q n (x ∷ xs) {p} k e = elim (Bool-cases (q x)) [
  | inl here ↦ ground (arith, e, here)
  | inr there ↦
      let later : first q xs ≡ some p = ground (arith, e, there) in
      let below = first-lt q x.id xs k.1 later in
      let found = first-has_id q x.id xs k.1 later in ground (arith, below, found)
]

-- A key that was not given yet is found nowhere.
pub first-fresh :
    (i n : ℕ) (rows : List Payment) → IsKeyed n rows → n ≤ i → first (has_id i) rows ≡ none
unfolding first
first-fresh i n [] k h = refl
first-fresh i n (x ∷ xs) k h = ground (arith, first-fresh i x.id xs k.1)

update-IsKeyed :
    (q : Payment → Bool) (f : Payment → Payment)
    → ((x : Payment) → (f x).id ≡ x.id)
    → (n : ℕ) (rows : List Payment) → IsKeyed n rows
    → IsKeyed n (update q f rows)
unfolding update
update-IsKeyed q f same n [] k = tt
update-IsKeyed q f same n (x ∷ xs) k = by_test (q x) (update-IsKeyed q f same x.id xs k.1)
  where
    by_test :
        (b : Bool)
        → IsKeyed x.id (update q f xs)
        → ((if b then f x else x).id < n) × IsKeyed (if b then f x else x).id (update q f xs)
    by_test true rest = (
      subst (λ i. i < n) (sym (same x)) k.0,
      subst (λ i. IsKeyed i (update q f xs)) (sym (same x)) rest,
    )
    by_test false rest = (k.0, rest)

abbrev pub KeyedBooks : Books → Type 0
KeyedBooks b = IsKeyed b.payments.next b.payments.rows

Step-IsKeyed : {b c : Books} → Step b c → KeyedBooks b → KeyedBooks c
unfolding store_status store_reference
Step-IsKeyed {b} (open_payment row ids fresh) k = (
  subst (λ i. i < suc b.payments.next) (sym (ids b.payments.next)) (omega arith),
  subst (λ i. IsKeyed i b.payments.rows) (sym (ids b.payments.next)) k,
)
Step-IsKeyed {b} (learn p) k =
    update-IsKeyed (has_id p.id) (store_reference p) (λ x. refl) b.payments.next b.payments.rows k
Step-IsKeyed {b} (move p p' held same go fair) k =
    update-IsKeyed (has_id p.id) (store_status p') (λ x. refl) b.payments.next b.payments.rows k
Step-IsKeyed {b} (succeed p p' held same paid go) k =
    update-IsKeyed (has_id p.id) (store_status p') (λ x. refl) b.payments.next b.payments.rows k
Step-IsKeyed (note event entries new added e) k = k

-- Keys stay unique whatever the books go through.
pub Evolves-IsKeyed : {b c : Books} → Evolves b c → KeyedBooks b → KeyedBooks c
Evolves-IsKeyed done k = k
Evolves-IsKeyed (next r st) k = Step-IsKeyed st (Evolves-IsKeyed r k)
