-- ===== src/Billing/Idempotence.antt =====
-- Asking for a bill again.
use kusanya.Base.{
  ℕ, zero, suc, Bool, false, Option, none, some, ◌≡◌, refl, ap, subst, arith, List, str_eq, eq_iff,
}
use kusanya.Base.Table.{first, update}
use kusanya.Core.Result.{Result, ok, err, integrity}
use kusanya.Billing.Models.{Bill}
use kusanya.Billing.Account.{recalculate_total}
use kusanya.Billing.Services.{
  BillRequest, Item, create_bill, insert_bill, known_bill, recover_bill, billed, bill_attempts,
  find_or_create_bill, get_or_create_bill,
}
use kusanya.Store.{Store}
use kusanya.Store.Action.{Action, pure, raise, rollback, atomic, ◌>>=◌}

-- An answer names the bill that the reference has from then on.
abbrev Names : BillRequest → Result (Bill × Bool) → Store → Type 0
Names r (ok (b, created)) t = known_bill r t ≡ some b
Names r (err e) t = Unit

created-known :
    (r : BillRequest) (s : Store) {b : Bill} {t : Store}
    → str_eq r.external_reference "" ≡ false
    → create_bill r s ≡ (ok b, t)
    → known_bill r t ≡ some b
unfolding create_bill insert_bill recalculate_total known_bill first update ◌>>=◌
created-known r s given h =
    let same = (eq_iff r.external_reference r.external_reference).1 refl in
    ground (arith, h, given, same)

module _ (r : BillRequest) (given : str_eq r.external_reference "" ≡ false) where
  recovered-Names :
      (o : Option Bill) (again : Action (Bill × Bool)) (v : Store)
      → known_bill r v ≡ o
      → Names r (again v).0 (again v).1
      → Names r (recover_bill o again v).0 (recover_bill o again v).1
  unfolding recover_bill pure
  recovered-Names none again v k h = h
  recovered-Names (some x) again v k h = k

  billed-Names :
      (again : Action (Bill × Bool)) (s : Store) (res : Result Bill) (u : Store)
      → ((b : Bill) → res ≡ ok b → known_bill r u ≡ some b)
      → ((v : Store) → Names r (again v).0 (again v).1)
      → let (res', u') = rollback s res u in
        let m = billed (recover_bill (known_bill r u') again) res' in Names r (m u').0 (m u').1
  unfolding pure raise
  billed-Names again s (ok b) u c h = c b refl
  billed-Names again s (err integrity) u c h =
      let v : Store = record s { uuids = u.uuids } in
      recovered-Names (known_bill r v) again v refl (h v)
  billed-Names again s (err e) u c h = tt

  attempts-Names : (n : ℕ) (s : Store) → Names r (bill_attempts n r s).0 (bill_attempts n r s).1
  unfolding bill_attempts raise atomic
  attempts-Names zero s = tt
  attempts-Names (suc n) s =
      billed-Names (bill_attempts n r) s (create_bill r s).0 (create_bill r s).1
        (λ b e. created-known r s given (ap (λ (x : Result Bill). (x, (create_bill r s).1)) e))
        (attempts-Names n)

  found-Names :
      (o : Option Bill) (s : Store)
      → known_bill r s ≡ o
      → Names r (find_or_create_bill r o s).0 (find_or_create_bill r o s).1
  unfolding find_or_create_bill pure
  found-Names none s k = attempts-Names 3 s
  found-Names (some x) s k = k

  get_or_create_bill-Names :
      (s : Store) → Names r (get_or_create_bill r s).0 (get_or_create_bill r s).1
  unfolding get_or_create_bill ◌>>=◌
  get_or_create_bill-Names s = found-Names (known_bill r s) s refl

-- A request with an external reference that is sent again, after it was answered, gets the same
-- bill as an old one and changes nothing in the store: no second bill, no items, no notification,
-- no webhook. It does not matter whether the first answer created the bill, found it, or lost a race
-- for it and found it then, nor what items the second request has.
pub get_or_create_bill-again :
    (r : BillRequest) (s : Store) {b : Bill} {created : Bool} {t : Store} (items : List Item)
    → str_eq r.external_reference "" ≡ false
    → get_or_create_bill r s ≡ (ok (b, created), t)
    → get_or_create_bill (record r { items = items }) t ≡ (ok (b, false), t)
unfolding get_or_create_bill find_or_create_bill known_bill ◌>>=◌
get_or_create_bill-again r s {b} {created} {t} items given h =
    let known : known_bill r t ≡ some b =
      subst (λ (x : Result (Bill × Bool) × Store). Names r x.0 x.1) h
        (get_or_create_bill-Names r given s) in
    rw known refl
