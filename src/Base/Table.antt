-- ===== src/Base/Table.antt =====
-- A database table: its rows, the newest first, and the next primary key. A `QuerySet` in the
-- order of the model's `Meta.ordering` is the list of rows that pass a filter.
use Prim.Native.Nat.{ℕ, suc, ◌+◌, ◌<◌, ◌≤◌}
use mathlib.Core.Path.{◌≡◌, refl}
use mathlib.Core.Bool.{Bool, true, false}
use mathlib.Core.Option.{Option, none, some}
use mathlib.Core.List.{List, [], ◌∷◌}
use native.Mathlib.Omega.{arith}
use kusanya.Base.Int.{ℤ, pos, ◌+ℤ◌}
use kusanya.Base.Tests.{if◌then◌else◌, Bool-cases}
use mathlib.Core.Logic.{inl, inr}

pub record Table {ℓ} (A : Type ℓ) : Type ℓ where
  pub next : ℕ
  pub rows : List A

abbrev pub empty {ℓ} : {A : Type ℓ} → Table A
empty = record { next = 0; rows = [] }

module _ {ℓ} {A : Type ℓ} where
  -- `.filter(...).first()`
  unfoldable pub first : (A → Bool) → List A → Option A
  first p [] = none
  first p (x ∷ xs) = if p x then some x else first p xs

  -- `.filter(...)`
  unfoldable pub select : (A → Bool) → List A → List A
  select p [] = []
  select p (x ∷ xs) = let rest = select p xs in if p x then x ∷ rest else rest

  -- `.filter(...).update(...)`
  unfoldable pub update : (A → Bool) → (A → A) → List A → List A
  update p f [] = []
  update p f (x ∷ xs) = (if p x then f x else x) ∷ update p f xs

  -- `.filter(...).count()`
  unfoldable pub count : (A → Bool) → List A → ℕ
  count p [] = 0
  count p (x ∷ xs) = (if p x then 1 else 0) + count p xs

  -- `.exists()`
  unfoldable pub exists : (A → Bool) → List A → Bool
  exists p [] = false
  exists p (x ∷ xs) = if p x then true else exists p xs

  -- `Sum(...)`, and 0 where there is no row
  unfoldable pub sum_of : (A → ℤ) → List A → ℤ
  sum_of f [] = pos 0
  sum_of f (x ∷ xs) = f x +ℤ sum_of f xs

  -- `.objects.create(...)`: the row is given its primary key.
  abbrev pub insert : Table A → (ℕ → A) → Table A
  insert t row = record { next = suc t.next; rows = row t.next ∷ t.rows }

  abbrev pub put_rows : Table A → List A → Table A
  put_rows t rows = record t { rows = rows }

  pub exists-first : (p : A → Bool) (xs : List A) → first p xs ≡ none → exists p xs ≡ false
  unfolding first exists
  exists-first p [] h = refl
  exists-first p (x ∷ xs) h = ground (arith, exists-first p xs)

module _ {ℓ} {A : Type ℓ} (p : A → Bool) (x : A) (xs : List A) where
  pub select-taken : p x ≡ true → select p (x ∷ xs) ≡ x ∷ select p xs
  unfolding select
  select-taken e = rw e refl

  pub select-skipped : p x ≡ false → select p (x ∷ xs) ≡ select p xs
  unfolding select
  select-skipped e = rw e refl

module _ {ℓ} {A : Type ℓ} where
  -- What an update makes of a row that was found.
  abbrev pub touched : (A → Bool) → (A → A) → Option A → Option A
  touched p f none = none
  touched p f (some x) = some (if p x then f x else x)

  touch-same :
      (p q : A → Bool) (f : A → A) (x : A) → q (f x) ≡ q x → q (if p x then f x else x) ≡ q x
  touch-same p q f x h = by_test (p x)
    where
      by_test : (b : Bool) → q (if b then f x else x) ≡ q x
      by_test true = h
      by_test false = refl

  -- An update that the search does not see finds the same row, updated.
  pub first-update :
      (p q : A → Bool) (f : A → A) (rows : List A)
      → ((x : A) → q (f x) ≡ q x)
      → first q (update p f rows) ≡ touched p f (first q rows)
  unfolding first update
  first-update p q f [] h = refl
  first-update p q f (x ∷ xs) h = elim (Bool-cases (q x)) [
    | inl e ↦ rw (touch-same p q f x (h x), e) refl
    | inr e ↦ rw (touch-same p q f x (h x), e) (first-update p q f xs h)
  ]

  -- The row that a search finds passes its test.
  pub first-passes : (p : A → Bool) (rows : List A) (x : A) → first p rows ≡ some x → p x ≡ true
  unfolding first
  first-passes p [] x h = ground arith
  first-passes p (y ∷ ys) x h = ground (arith, first-passes p ys x)

  -- A row that is written in place of the rows that a search passes is the one that it finds.
  pub first-replaced :
      (p : A → Bool) (rows : List A) (x y : A)
      → first p rows ≡ some x
      → p y ≡ true
      → first p (update p (λ _. y) rows) ≡ some y
  unfolding first update
  first-replaced p [] x y h e = ground arith
  first-replaced p (z ∷ zs) x y h e = ground (arith, first-replaced p zs x y)

  count-update_le :
      (p q : A → Bool) (f : A → A) (rows : List A)
      → ((y : A) → p (f y) ≡ false)
      → count p (update q f rows) ≤ count p rows
  unfolding count update
  count-update_le p q f [] off = omega arith
  count-update_le p q f (y ∷ ys) off = ground (arith, off y, count-update_le p q f ys off)

  -- An update after which a row that it touches no longer passes a test, of a row that passed.
  pub count-update_lt :
      (p q : A → Bool) (f : A → A) (rows : List A) (x : A)
      → first p rows ≡ some x
      → q x ≡ true
      → ((y : A) → p (f y) ≡ false)
      → count p (update q f rows) < count p rows
  unfolding first count update
  count-update_lt p q f [] x h e off = ground arith
  count-update_lt p q f (y ∷ ys) x h e off = ground (
    arith,
    off y,
    count-update_le p q f ys off,
    λ (h' : first p ys ≡ some x). count-update_lt p q f ys x h' e off,
  )

  pub first-none : (p : A → Bool) (rows : List A) → count p rows ≡ 0 → first p rows ≡ none
  unfolding first count
  first-none p [] h = refl
  first-none p (x ∷ xs) h = ground (arith, first-none p xs)

  pub first-exists :
      (p : A → Bool) (rows : List A) (x : A) → first p rows ≡ some x → exists p rows ≡ true
  unfolding first exists
  first-exists p [] x h = ground arith
  first-exists p (y ∷ ys) x h = ground (arith, first-exists p ys x)

  -- An update that makes no row pass a test leaves the row that it finds, where it leaves that row.
  pub first-update_other :
      (p q : A → Bool) (f : A → A) (rows : List A) (x : A)
      → ((y : A) → q (f y) ≡ true → q y ≡ true)
      → p x ≡ false
      → ((y : A) → p y ≡ true → q (f y) ≡ false)
      → first q rows ≡ some x
      → first q (update p f rows) ≡ some x
  unfolding first update
  first-update_other p q f [] x more off gone h = ground arith
  first-update_other p q f (y ∷ ys) x more off gone h =
      ground (arith, gone y, first-update_other p q f ys x more off gone)

  pub exists-of_first :
      (p q : A → Bool) (rows : List A) (x : A)
      → first q rows ≡ some x
      → p x ≡ true
      → exists p rows ≡ true
  unfolding first exists
  exists-of_first p q [] x h e = ground arith
  exists-of_first p q (y ∷ ys) x h e = ground (arith, exists-of_first p q ys x)

  -- An update that only makes rows pass.
  pub exists-update :
      (p q : A → Bool) (f : A → A) (rows : List A)
      → ((y : A) → p y ≡ true → p (f y) ≡ true)
      → exists p rows ≡ true
      → exists p (update q f rows) ≡ true
  unfolding exists update
  exists-update p q f [] more h = ground arith
  exists-update p q f (y ∷ ys) more h = ground (arith, more y, exists-update p q f ys more)

  -- What a search finds after an update.
  pub first-updated :
      (p q : A → Bool) (f : A → A) (rows : List A)
      → first q (update p f rows) ≡ touched p f (first (λ x. q (if p x then f x else x)) rows)
  unfolding first update
  first-updated p q f [] = refl
  first-updated p q f (x ∷ xs) = elim (Bool-cases (q (if p x then f x else x))) [
    | inl e ↦ rw (e) refl
    | inr e ↦ rw (e) (first-updated p q f xs)
  ]
