-- ===== src/Payments/Races.antt =====
-- What happens when two workers hold the same payment.
use kusanya.Base.{ℕ, ◌+◌, true, Option, ◌≡◌, ◌∙◌, ap, arith}
use kusanya.Base.Table.{count}
use kusanya.Payments.Models.{Payment, successful, status_in, allowed_transitions, enter_status}
use kusanya.Payments.Outcome.{apply_status}
use kusanya.Payments.Books.{books}
use kusanya.Payments.Books.Charges.{fees_of}
use kusanya.Payments.Books.Outcomes.{books-apply_successful}
use kusanya.Core.Result.{Result, ok}
use kusanya.Store.{Store}

one_fee :
    (p : Payment) (actor : Option ℕ) (s : Store)
    → status_in successful (allowed_transitions p.status) ≡ true
    → fees_of p.id (books (apply_status p successful actor s).1) ≡ fees_of p.id (books s) + 1
unfolding count enter_status
one_fee p actor s go = ap (fees_of p.id) (books-apply_successful p actor s go) ∙ ground arith

-- Two workers that have both read a payment before it settled, and both learn that it succeeded,
-- charge its fee twice where both their calls answer, so that both transactions are kept: the guard
-- reads the copy that the worker holds, and nothing locks the row.
pub stale-double_fee :
    (p : Payment) (first_actor second_actor : Option ℕ) (s : Store) {q q' : Payment} {s1 s2 : Store}
    → status_in successful (allowed_transitions p.status) ≡ true
    → apply_status p successful first_actor s ≡ (ok q, s1)
    → apply_status p successful second_actor s1 ≡ (ok q', s2)
    → fees_of p.id (books s2) ≡ fees_of p.id (books s) + 2
stale-double_fee p first_actor second_actor s {q} {q'} {s1} {s2} go one two =
    let fees : Result Payment × Store → ℕ = λ x. fees_of p.id (books x.1) in
    omega
      (arith, one_fee p second_actor s1 go, one_fee p first_actor s go, ap fees one, ap fees two)
