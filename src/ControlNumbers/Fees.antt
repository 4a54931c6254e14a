-- ===== src/ControlNumbers/Fees.antt =====
-- The fee of a control number: charged when it is created, and never when it is used again.
use kusanya.Base.{
  ℕ, zero, suc, ◌+◌, String, Bool, true, false, not, ◌&&◌, ◌||◌, refl, Option, none, some, ◌≡◌,
  subst, arith, ◌==◌, if◌then◌else◌,
}
use kusanya.Base.Int.{ℤ, pos, negsuc}
use kusanya.Core.Objects.{Object, control_number}
use kusanya.Ledger.Models.{
  LedgerEntry, LedgerEntryType, LedgerAccount, platform_control_number_fee, platform,
}
use kusanya.Base.Table.{count, first}
use kusanya.Core.Result.{Result, Error, ok, err, integrity}
use kusanya.Tenants.Models.{Tenant}
use kusanya.Customers.Models.{CustomerAccount}
use kusanya.ControlNumbers.Models.{ControlNumber, Owner}
use kusanya.ControlNumbers.Services.{
  Issue, is_current_of, insert_number, generate_value, create_number, recover, issued, attempts,
  reuse, find_or_create, get_or_create, audit_number, notify_control_number_generated,
  notify_account, max_generation_attempts,
}
use kusanya.Billing.Models.{Bill}
use kusanya.Billing.Account.{bill_of}
use kusanya.Notifications.Models.{NotificationEventType, Context}
use kusanya.Notifications.Services.{send_notification}
use kusanya.Revenue.Models.{RevenueEvent, control_number_created}
use kusanya.Revenue.Models
use kusanya.Revenue.Services.{record_control_number_created, record_control_number_reused}
use kusanya.Store.{Store}
use kusanya.Store.Action.{
  Action, pure, raise, gets, draw, or_raise, continue, rollback, atomic, record_audit_event, ◌>>=◌,
}

-- The entry of a fee for a control number in the platform's account: of 50.00, for that number.
abbrev is_fee_type : LedgerEntryType → Bool
is_fee_type platform_control_number_fee = true
is_fee_type _ = false

abbrev is_platform : LedgerAccount → Bool
is_platform platform = true
is_platform _ = false

abbrev is_number : ℕ → Object → Bool
is_number i (control_number j) = j == i
is_number i _ = false

abbrev is_number_of : ℕ → Option Object → Bool
is_number_of i none = false
is_number_of i (some o) = is_number i o

abbrev is_fifty : ℤ → Bool
is_fifty (pos n) = n == 5000
is_fifty (negsuc n) = false

abbrev is_fee_entry : ℕ → Option LedgerEntry → Bool
is_fee_entry i none = false
is_fee_entry i (some e) =
    is_fee_type e.entry_type
    && (is_platform e.account && (is_fifty e.amount && is_number_of i e.source))

-- A creation event of a number; and, of the charged ones, those of 50.00 with such an entry.
abbrev pub is_creation : Bool → ℕ → RevenueEvent → Bool
is_creation charged i e =
    (Models.tag e.event_type == Models.tag control_number_created)
    && (is_number i e.source
        && (not charged || (is_fifty e.amount && is_fee_entry i e.ledger_entry)))

-- How often the creation of a control number was recorded, or was charged.
abbrev pub creations : Bool → ℕ → Store → ℕ
creations charged i s = count (is_creation charged i) s.revenue.rows

-- What a created number adds to the count of number `i`.
abbrev own : ℕ → ControlNumber → ℕ
own i cn = if cn.id == i then 1 else 0

module _ (charged : Bool) (i : ℕ) where
  -- A call that answers raises the count to what its result says, with `k` of it there before.
  abbrev Counted : {A : Type 0} → ℕ → (A → ℕ) → Store → Result A → Store → Type 0
  Counted k n s (ok a) t = creations charged i t + k ≡ creations charged i s + n a
  Counted k n s (err e) t = Unit

  record Adds {A : Type 0} (k : ℕ) (n : A → ℕ) (m : Action A) : Type 0 where
    at : (s : Store) → Counted k n s (m s).0 (m s).1

  -- A call that charges nothing.
  abbrev Quiet : {A : Type 0} → Action A → Type 0
  Quiet m = Adds 0 (λ a. 0) m

  module _ {A : Type 0} where
    Adds-pure : (n : A → ℕ) (a : A) → Adds (n a) n (pure a)
    unfolding pure
    Adds-pure n a = record { at = λ s. refl }

    Quiet-gets : (f : Store → A) → Quiet (gets f)
    unfolding gets
    Quiet-gets f = record { at = λ s. refl }

    Quiet-or_raise : (o : Option A) (e : Error) → Quiet (or_raise o e)
    unfolding or_raise
    Quiet-or_raise none e = record { at = λ s. tt }
    Quiet-or_raise (some a) e = record { at = λ s. refl }

  module _ {A B : Type 0} where
    Adds-bind :
        (j k k' : ℕ) (n : B → ℕ) (m : Action A) (f : A → Action B)
        → k' ≡ k + j
        → Adds 0 (λ a. j) m
        → ((a : A) → Adds k' n (f a))
        → Adds k n (m >>= f)
    unfolding ◌>>=◌
    Adds-bind j k k' n m f e h g = record { at = λ s. ended s (m s).0 (m s).1 (h.at s) }
      where
        more :
            (s u : Store) (r : Result B) (t : Store)
            → creations charged i u + 0 ≡ creations charged i s + j
            → Counted k' n u r t
            → Counted k n s r t
        more s u (ok b) t x y = omega (arith, e, x, y)
        more s u (err b) t x y = tt

        ended :
            (s : Store) (r : Result A) (u : Store)
            → Counted 0 (λ a. j) s r u
            → Counted k n s (continue r f u).0 (continue r f u).1
        ended s (ok a) u c = more s u (f a u).0 (f a u).1 c ((g a).at u)
        ended s (err x) u c = tt

    Adds-bind_free :
        (k : ℕ) (n : B → ℕ) (m : Action A) (f : A → Action B)
        → Quiet m
        → ((a : A) → Adds k n (f a))
        → Adds k n (m >>= f)
    Adds-bind_free k n m f = Adds-bind 0 k k n m f (omega arith)

    Quiet-bind :
        (m : Action A) (f : A → Action B) → Quiet m → ((a : A) → Quiet (f a)) → Quiet (m >>= f)
    Quiet-bind m f = Adds-bind_free 0 (λ b. 0) m f

  Quiet-draw : Quiet draw
  unfolding draw
  Quiet-draw = record { at = λ s. refl }

  Quiet-generate_value : Quiet generate_value
  unfolding generate_value
  Quiet-generate_value =
      Quiet-bind _ _ (Quiet-gets _) (λ p. Quiet-bind _ _ Quiet-draw (λ x. Adds-pure (λ v. 0) _))

  Quiet-insert_number : (row : ℕ → ControlNumber) → Quiet (insert_number row)
  unfolding insert_number
  Quiet-insert_number row = record { at = λ s. ground arith }

  Quiet-audit_number :
      (action : String) (actor : Option ℕ) (t : Tenant) (cn : ControlNumber)
      → Quiet (audit_number action actor t cn)
  unfolding record_audit_event
  Quiet-audit_number action actor t cn = record { at = λ s. refl }

  Adds-created : (cn : ControlNumber) → Adds 0 (λ e. own i cn) (record_control_number_created cn)
  unfolding record_control_number_created ◌>>=◌ count
  Adds-created cn = record { at = λ s. ground arith }

  Quiet-reused : (cn : ControlNumber) → Quiet (record_control_number_reused cn)
  unfolding record_control_number_reused count
  Quiet-reused cn = record { at = λ s. omega arith }

  Quiet-send :
      (t : Tenant) (ev : NotificationEventType) (c : Context) (e p : String)
      → Quiet (send_notification t ev c e p)
  unfolding send_notification
  Quiet-send t ev c e p = record { at = λ s. ground arith }

  Quiet-bill_of : (o : Owner) → Quiet (bill_of o)
  unfolding bill_of
  Quiet-bill_of (Owner.bill j) =
      Quiet-bind _ _ (Quiet-gets _)
        (λ o. Quiet-bind _ _ (Quiet-or_raise o _) (λ b. Adds-pure (λ v. 0) _))
  Quiet-bill_of (Owner.account a) = Adds-pure (λ v. 0) none

  Quiet-notify_account :
      (cn : ControlNumber) (b : Option Bill) (a : Option CustomerAccount)
      → Quiet (notify_account cn b a)
  unfolding notify_account
  Quiet-notify_account cn b none = Adds-pure (λ v. 0) tt
  Quiet-notify_account cn b (some a) =
      Quiet-bind _ _ (Quiet-send _ _ _ _ _) (λ sent. Adds-pure (λ v. 0) tt)

  Quiet-notify : (cn : ControlNumber) → Quiet (notify_control_number_generated cn)
  unfolding notify_control_number_generated
  Quiet-notify cn = Quiet-bind _ _ (Quiet-bill_of cn.owner) (λ b. Quiet-notify_account cn b _)

  Adds-create_number : (r : Issue) → Adds 0 (own i) (create_number r)
  unfolding create_number
  Adds-create_number r = Adds-bind_free 0 (own i) _ _ Quiet-generate_value (λ value.
      Adds-bind_free 0 (own i) _ _ (Quiet-insert_number _) (λ cn.
        Adds-bind_free 0 (own i) _ _ (Quiet-audit_number _ _ r.tenant cn) (λ x.
          Adds-bind (own i cn) 0 (own i cn) (own i) _ _ (omega arith) (Adds-created cn) (λ event.
            Adds-bind_free (own i cn) (own i) _ _ (Quiet-notify cn) (λ y. Adds-pure (own i) cn)))))

  -- What an answer of `get_or_create` says of the fees of a number.
  abbrev ChargedIf : Store → Result (ControlNumber × Bool) → Store → Type 0
  ChargedIf s (ok (cn, created)) t =
      creations charged i t ≡ creations charged i s + (if created then own i cn else 0)
  ChargedIf s (err e) t = Unit

  attempt-ChargedIf :
      (s : Store) (o : Option ControlNumber) (again : Action (ControlNumber × Bool))
      (res : Result ControlNumber) (u : Store)
      → Counted 0 (own i) s res u
      → ((v : Store) → ChargedIf v (again v).0 (again v).1)
      → let (r', u') = rollback s res u in
        let m = issued (recover o again) r' in ChargedIf s (m u').0 (m u').1
  unfolding recover pure raise
  attempt-ChargedIf s o again (ok cn) u c h = omega (arith, c)
  attempt-ChargedIf s none again (err integrity) u c h = h (record s { uuids = u.uuids })
  attempt-ChargedIf s (some x) again (err integrity) u c h = omega arith
  attempt-ChargedIf s o again (err e) u c h = tt

  attempts-ChargedIf :
      (n : ℕ) (r : Issue) (s : Store) → ChargedIf s (attempts n r s).0 (attempts n r s).1
  unfolding attempts raise atomic
  attempts-ChargedIf zero r s = tt
  attempts-ChargedIf (suc n) r s =
      attempt-ChargedIf s
        (first (is_current_of r.owner) (atomic (create_number r) s).1.control_numbers.rows)
        (attempts n r) (create_number r s).0 (create_number r s).1 ((Adds-create_number r).at s)
        (attempts-ChargedIf n r)

  found-ChargedIf :
      (r : Issue) (o : Option ControlNumber) (s : Store)
      → ChargedIf s (find_or_create r o s).0 (find_or_create r o s).1
  unfolding find_or_create reuse record_audit_event record_control_number_reused ◌>>=◌ count
  found-ChargedIf r none s = attempts-ChargedIf max_generation_attempts r s
  found-ChargedIf r (some x) s = omega arith

  get_or_create-ChargedIf :
      (r : Issue) (s : Store) → ChargedIf s (get_or_create r s).0 (get_or_create r s).1
  unfolding get_or_create ◌>>=◌
  get_or_create-ChargedIf r s =
      found-ChargedIf r (first (is_current_of r.owner) s.control_numbers.rows) s

  answered-ChargedIf :
      (r : Issue) (s : Store) {cn : ControlNumber} {created : Bool} {t : Store}
      → get_or_create r s ≡ (ok (cn, created), t)
      → creations charged i t ≡ creations charged i s + (if created then own i cn else 0)
  answered-ChargedIf r s h =
      subst (λ (x : Result (ControlNumber × Bool) × Store). ChargedIf s x.0 x.1) h
        (get_or_create-ChargedIf r s)

-- Where `get_or_create_for_bill` or `get_or_create_for_account` answers with a number that it
-- created, however many attempts that took, that number has one more creation event, and it is
-- charged: 50.00, with a ledger entry of a control number's fee of 50.00 in the platform's account
-- for the same number. Every other number, and all of them where one that was there is returned,
-- has as many events, and as many charges, as before.
pub get_or_create-charges :
    (r : Issue) (s : Store) (i : ℕ) {cn : ControlNumber} {created : Bool} {t : Store}
    → get_or_create r s ≡ (ok (cn, created), t)
    → let more : ℕ = if created then (if cn.id == i then 1 else 0) else 0 in
      (creations false i t ≡ creations false i s + more)
      × (creations true i t ≡ creations true i s + more)
get_or_create-charges r s i h = (answered-ChargedIf false i r s h, answered-ChargedIf true i r s h)
