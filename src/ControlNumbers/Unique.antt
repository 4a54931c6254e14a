-- ===== src/ControlNumbers/Unique.antt =====
-- No owner ever has two current control numbers.
use kusanya.Base.{
  ℕ, zero, suc, ◌≤◌, String, Bool, true, false, Option, none, some, List, [], ◌∷◌, ◌≡◌, refl, arith,
  Bool-cases, inl, inr,
}
use kusanya.Base.Table.{count, exists, first}
use kusanya.Core.Result.{Result, Error, ok, err, integrity}
use kusanya.Customers.Models.{CustomerAccount}
use kusanya.ControlNumbers.Models.{ControlNumber, Owner}
use kusanya.ControlNumbers.Services.{
  Issue, is_current_of, collides, insert_number, generate_value, create_number, recover, issued,
  attempts, reuse, find_or_create, get_or_create, audit_number, notify_control_number_generated,
  notify_account, max_generation_attempts,
}
use kusanya.Billing.Models.{Bill}
use kusanya.Tenants.Models.{Tenant}
use kusanya.Notifications.Models.{NotificationEventType, Context}
use kusanya.Billing.Account.{bill_of}
use kusanya.Notifications.Services.{send_notification}
use kusanya.Revenue.Services.{record_control_number_created, record_control_number_reused}
use kusanya.Store.{Store}
use kusanya.Store.Action.{
  Action, pure, raise, gets, draw, or_raise, continue, rollback, atomic, record_audit_event, ◌>>=◌,
}

-- A bill has at most one control number, and an account at most one that is active.
pub record IsUnique (s : Store) : Type 0 where
  pub current : (o : Owner) → count (is_current_of o) s.control_numbers.rows ≤ 1

record Stays {A : Type 0} (m : Action A) : Type 0 where
  at : (s : Store) → IsUnique s → IsUnique (m s).1

module _ {A : Type 0} where
  Stays-pure : (a : A) → Stays (pure a)
  unfolding pure
  Stays-pure a = record { at = λ s h. h }

  Stays-raise : (e : Error) → Stays (raise {A = A} e)
  unfolding raise
  Stays-raise e = record { at = λ s h. h }

  Stays-gets : (f : Store → A) → Stays (gets f)
  unfolding gets
  Stays-gets f = record { at = λ s h. h }

  Stays-atomic : (m : Action A) → Stays m → Stays (atomic m)
  unfolding atomic
  Stays-atomic m k = record { at = λ s h. ended s h (m s).0 (m s).1 (k.at s h) }
    where
      ended :
          (s : Store)
          → IsUnique s
          → (r : Result A) (t : Store) → IsUnique t
          → IsUnique (rollback s r t).1
      ended s h (ok a) t k = k
      ended s h (err e) t k = record { current = h.current }

module _ {A B : Type 0} where
  Stays-continue :
      (f : A → Action B)
      → ((a : A) → Stays (f a))
      → (r : Result A) (s : Store) → IsUnique s
      → IsUnique (continue r f s).1
  Stays-continue f k (ok a) s h = (k a).at s h
  Stays-continue f k (err e) s h = h

  Stays-bind :
      (m : Action A) (f : A → Action B) → Stays m → ((a : A) → Stays (f a)) → Stays (m >>= f)
  unfolding ◌>>=◌
  Stays-bind m f k kf = record { at = λ s h. Stays-continue f kf (m s).0 (m s).1 (k.at s h) }

-- Two numbers of one owner: what is current for the owner is current for the number's own.
same_current :
    (o : Owner) (new x : ControlNumber)
    → is_current_of o new ≡ true
    → is_current_of o x ≡ true
    → is_current_of new.owner x ≡ true
unfolding is_current_of
same_current (Owner.bill i) new x h k = ground (arith, h, k)
same_current (Owner.account a) new x h k = ground (arith, h, k)

none_current :
    (o : Owner) (new : ControlNumber) (rows : List ControlNumber)
    → is_current_of o new ≡ true
    → exists (collides new) rows ≡ false
    → count (is_current_of o) rows ≡ 0
unfolding exists count
none_current o new [] h e = refl
none_current o new (x ∷ xs) h e = elim (Bool-cases (is_current_of o x)) [
  | inl k ↦ absurd (ground (arith, e, same_current o new x h k))
  | inr k ↦ ground (arith, e, k, none_current o new xs h)
]

Stays-insert_number : (row : ℕ → ControlNumber) → Stays (insert_number row)
unfolding insert_number
Stays-insert_number row = record {
  at = λ s h.
      by_test s h (exists (collides (row s.control_numbers.next)) s.control_numbers.rows) refl;
}
  where
    by_test :
        (s : Store)
        → IsUnique s
        → (b : Bool) → exists (collides (row s.control_numbers.next)) s.control_numbers.rows ≡ b
        → IsUnique (insert_number row s).1
    by_test s h true e = rw e h
    by_test s h false e = rw e (record { current = λ o. by_owner s h e o })
      where
        by_owner :
            (s : Store)
            → IsUnique s
            → exists (collides (row s.control_numbers.next)) s.control_numbers.rows ≡ false
            → (o : Owner)
            → count (is_current_of o) (row s.control_numbers.next ∷ s.control_numbers.rows) ≤ 1
        by_owner s h e o = elim (Bool-cases (is_current_of o (row s.control_numbers.next))) [
          | inl k ↦
              let rest = none_current o (row s.control_numbers.next) s.control_numbers.rows k e in
              unfold count in ground (arith, k, rest)
          | inr k ↦ unfold count in ground (arith, k, h.current o)
        ]

ruleset stay_rules =
    (Stays-pure, Stays-raise, Stays-gets, Stays-atomic, Stays-bind, Stays-insert_number)

Stays-draw : Stays draw
unfolding draw
Stays-draw = record { at = λ s h. record { current = h.current } }

Stays-audit_number :
    (action : String) (actor : Option ℕ) (t : Tenant) (cn : ControlNumber)
    → Stays (audit_number action actor t cn)
unfolding record_audit_event
Stays-audit_number action actor t cn = record { at = λ s h. record { current = h.current } }

Stays-created : (cn : ControlNumber) → Stays (record_control_number_created cn)
unfolding record_control_number_created ◌>>=◌
Stays-created cn = record { at = λ s h. record { current = h.current } }

Stays-reused : (cn : ControlNumber) → Stays (record_control_number_reused cn)
unfolding record_control_number_reused
Stays-reused cn = record { at = λ s h. record { current = h.current } }

Stays-send :
    (t : Tenant) (ev : NotificationEventType) (c : Context) (e p : String)
    → Stays (send_notification t ev c e p)
unfolding send_notification
Stays-send t ev c e p = record { at = λ s h. record { current = h.current } }

Stays-or_raise : {A : Type 0} (o : Option A) (e : Error) → Stays (or_raise o e)
unfolding or_raise
Stays-or_raise none e = record { at = λ s h. h }
Stays-or_raise (some a) e = record { at = λ s h. h }

Stays-bill_of : (o : Owner) → Stays (bill_of o)
unfolding bill_of
Stays-bill_of (Owner.bill i) = search (stay_rules, Stays-or_raise)
Stays-bill_of (Owner.account a) = search stay_rules

Stays-notify_account :
    (cn : ControlNumber) (b : Option Bill) (a : Option CustomerAccount)
    → Stays (notify_account cn b a)
unfolding notify_account
Stays-notify_account cn b none = search stay_rules
Stays-notify_account cn b (some a) = search (stay_rules, Stays-send)

Stays-generate_value : Stays generate_value
unfolding generate_value
Stays-generate_value = search (stay_rules, Stays-draw)

Stays-notify : (cn : ControlNumber) → Stays (notify_control_number_generated cn)
unfolding notify_control_number_generated
Stays-notify cn = search (stay_rules, Stays-bill_of, Stays-notify_account)

Stays-create_number : (r : Issue) → Stays (create_number r)
unfolding create_number
Stays-create_number r =
    search (stay_rules, Stays-generate_value, Stays-audit_number, Stays-created, Stays-notify) depth
      12

Stays-issued :
    (o : Option ControlNumber) (again : Action (ControlNumber × Bool)) (res : Result ControlNumber)
    → Stays again
    → Stays (issued (recover o again) res)
unfolding recover
Stays-issued o again (ok cn) k = Stays-pure (cn, true)
Stays-issued none again (err integrity) k = k
Stays-issued (some x) again (err integrity) k = Stays-pure (x, false)
Stays-issued o again (err e) k = Stays-raise e

Stays-attempts : (n : ℕ) (r : Issue) → Stays (attempts n r)
unfolding attempts
Stays-attempts zero r = Stays-raise integrity
Stays-attempts (suc n) r = record {
  at = λ s h.
      (Stays-issued
          (first (is_current_of r.owner) (atomic (create_number r) s).1.control_numbers.rows)
          (attempts n r) (atomic (create_number r) s).0 (Stays-attempts n r)).at
        (atomic (create_number r) s).1
        ((Stays-atomic (create_number r) (Stays-create_number r)).at s h);
}

Stays-find_or_create : (r : Issue) (o : Option ControlNumber) → Stays (find_or_create r o)
unfolding find_or_create reuse
Stays-find_or_create r none = Stays-attempts max_generation_attempts r
Stays-find_or_create r (some x) = search (stay_rules, Stays-audit_number, Stays-reused)

-- Asking for a control number keeps every bill at most one number and every account at most one
-- active number, whether it answers or raises, whatever values are drawn and however often they
-- collide.
pub get_or_create-IsUnique : (r : Issue) (s : Store) → IsUnique s → IsUnique (get_or_create r s).1
unfolding get_or_create
get_or_create-IsUnique r =
    let all : Stays (get_or_create r) = search (stay_rules, Stays-find_or_create) in all.at
