-- ===== src/ControlNumbers/Services.antt =====
-- apps/control_numbers/services.py. The six digits of a number, `random.randint(0, 999_999)`, are
-- the next text of the store's stream.
use Prim.Native.String.{◌++◌}
use kusanya.Base.{
  ℕ, zero, suc, String, Bool, true, false, Option, none, some, [], ◌∷◌, ◌&&◌, ◌||◌, ◌==◌, str_eq,
  ltb, if◌then◌else◌,
}
use kusanya.Base.Table.{insert, first, update, count, exists, put_rows}
use kusanya.Core.Result.{Result, ok, err, integrity}
use kusanya.Core.Objects.{Value, text}
use kusanya.Core.Objects
use kusanya.Tenants.Models.{Tenant}
use kusanya.Customers.Models.{CustomerAccount}
use kusanya.ControlNumbers.Models.{
  ControlNumber, ControlNumberScope, ControlNumberStatus, Owner, one_time, persistent,
}
use kusanya.Billing.Models.{Bill}
use kusanya.Billing.Account.{bill_of}
use kusanya.Revenue.Services.{record_control_number_created, record_control_number_reused}
use kusanya.Notifications.Models.{NotificationEventType, Context}
use kusanya.Notifications.Services.{send_notification}
use kusanya.Store.Action.{
  Action, ⊤, pure, raise, gets, modify, atomic, draw, record_audit_event, ◌>>=◌, ◌>>◌,
}

abbrev pub is_active : ControlNumberStatus → Bool
is_active ControlNumberStatus.active = true
is_active _ = false

-- `bill=bill`
abbrev pub is_of_bill : ℕ → ControlNumber → Bool
is_of_bill i cn = elim cn.owner [ Owner.bill j ↦ i == j | Owner.account a ↦ false ]

-- `customer_account=customer_account, status=ACTIVE`
abbrev pub is_active_of : ℕ → ControlNumber → Bool
is_active_of i cn = elim cn.owner [
  | Owner.account a ↦ (i == a.id) && is_active cn.status
  | Owner.bill j ↦ false
]

-- The search for an existing number, by the kind of owner.
unfoldable pub is_current_of : Owner → ControlNumber → Bool
is_current_of (Owner.bill i) cn = is_of_bill i cn
is_current_of (Owner.account a) cn = is_active_of a.id cn

-- What the unique value, the one-to-one `bill` and the constraint
-- `unique_active_control_number_per_account` refuse; a new number is active.
abbrev pub collides : ControlNumber → ControlNumber → Bool
collides new cn = str_eq cn.value new.value || is_current_of new.owner cn

-- `ControlNumber.objects.create(...)`
unfoldable pub insert_number : (ℕ → ControlNumber) → Action ControlNumber
unfolding is_current_of
insert_number row s =
    if exists (collides (row s.control_numbers.next)) s.control_numbers.rows
    then (err integrity, s)
    else (
      ok (row s.control_numbers.next),
      record s { control_numbers = insert s.control_numbers row },
    )

-- The arguments of `get_or_create_for_bill` and `get_or_create_for_account`.
pub record Issue : Type 0 where
  pub tenant : Tenant
  pub owner : Owner
  pub actor : Option ℕ
  pub expires_at : Option ℕ

abbrev pub scope_of : Owner → ControlNumberScope
scope_of (Owner.bill i) = one_time
scope_of (Owner.account a) = persistent

-- `generate_value`
unfoldable pub generate_value : Action String
unfolding draw
generate_value = do prefix ← gets (λ s. s.short_date); suffix ← draw; pure (prefix ++ suffix)

abbrev pub new_number : Issue → String → ℕ → ControlNumber
new_number r value id = record {
  id = id;
  tenant = r.tenant;
  value = value;
  scope = scope_of r.owner;
  status = ControlNumberStatus.active;
  owner = r.owner;
  expires_at = r.expires_at;
  cancelled_at = none;
  created_by = r.actor;
}

abbrev pub audit_number : String → Option ℕ → Tenant → ControlNumber → Action ⊤
audit_number action actor tenant cn =
    record_audit_event action actor (some tenant.id) (some (Objects.control_number cn.id))

abbrev bill_number_of : Option Bill → String
bill_number_of none = ""
bill_number_of (some b) = b.bill_number

-- The account that is told: the bill's, or the number's own.
abbrev told : Owner → Option Bill → Option CustomerAccount
told (Owner.account a) b = some a
told (Owner.bill i) none = none
told (Owner.bill i) (some b) = some b.customer_account

abbrev number_context : ControlNumber → CustomerAccount → Option Bill → Context
number_context cn a b =
    ("institution_name", text cn.tenant.name)
    ∷ ("customer_name", text a.customer.full_name)
    ∷ ("bill_number", text (bill_number_of b))
    ∷ ("control_number", text cn.value)
    ∷ []

unfoldable pub notify_account : ControlNumber → Option Bill → Option CustomerAccount → Action ⊤
unfolding send_notification
notify_account cn b none = pure tt
notify_account cn b (some a) = do
  send_notification cn.tenant NotificationEventType.control_number_generated (number_context cn a b)
      a.customer.email a.customer.phone_number
  pure tt

-- `_notify_control_number_generated`
unfoldable pub notify_control_number_generated : ControlNumber → Action ⊤
unfolding bill_of notify_account
notify_control_number_generated cn = do b ← bill_of cn.owner; notify_account cn b (told cn.owner b)

-- One attempt, in its savepoint.
unfoldable pub create_number : Issue → Action ControlNumber
unfolding generate_value insert_number record_audit_event record_control_number_created
    notify_control_number_generated
create_number r = do
  value ← generate_value
  cn ← insert_number (new_number r value)
  audit_number "control_number.created" r.actor r.tenant cn
  record_control_number_created cn
  notify_control_number_generated cn
  pure cn

-- The answer to an `IntegrityError`: the number that is there now, if there is one, and else
-- another attempt.
unfoldable pub recover :
    Option ControlNumber → Action (ControlNumber × Bool) → Action (ControlNumber × Bool)
recover (some existing) again = pure (existing, false)
recover none again = again

abbrev pub issued :
    Action (ControlNumber × Bool) → Result ControlNumber → Action (ControlNumber × Bool)
issued again (ok cn) = pure (cn, true)
issued again (err integrity) = again
issued again (err e) = raise e

-- The loop over the attempts that are left. Each runs in a savepoint.
unfoldable pub attempts : ℕ → Issue → Action (ControlNumber × Bool)
unfolding atomic create_number recover is_current_of
attempts zero r = raise integrity
attempts (suc n) r =
    let again = attempts n r in
    λ s.
      let (result, s') = atomic (create_number r) s in
      let found = first (is_current_of r.owner) s'.control_numbers.rows in
      issued (recover found again) result s'

abbrev pub max_generation_attempts : ℕ
max_generation_attempts = 5

-- A number that was found is returned, and its reuse recorded.
unfoldable pub reuse : Issue → ControlNumber → Action (ControlNumber × Bool)
unfolding record_audit_event record_control_number_reused
reuse r existing = do
  audit_number "control_number.reused" r.actor r.tenant existing
  record_control_number_reused existing
  pure (existing, false)

unfoldable pub find_or_create : Issue → Option ControlNumber → Action (ControlNumber × Bool)
unfolding reuse attempts
find_or_create r (some existing) = reuse r existing
find_or_create r none = attempts max_generation_attempts r

-- `get_or_create_for_bill` and `get_or_create_for_account`, which differ in the owner alone.
unfoldable pub get_or_create : Issue → Action (ControlNumber × Bool)
unfolding find_or_create is_current_of
get_or_create r = do
  existing ← gets (λ s. first (is_current_of r.owner) s.control_numbers.rows)
  find_or_create r existing

abbrev pub cancelled_at_now : ℕ → ControlNumber → ControlNumber
cancelled_at_now now cn = record cn {
  status = ControlNumberStatus.cancelled;
  cancelled_at = some now;
}

-- `cancel`
unfoldable pub cancel : ControlNumber → Option ℕ → Action ControlNumber
unfolding record_audit_event
cancel cn actor = do
  cn' ← gets (λ s. cancelled_at_now s.now cn)
  modify (λ s. record s {
    control_numbers = put_rows s.control_numbers (
        update (λ (row : ControlNumber). row.id == cn.id)
          (λ row. record row { status = cn'.status; cancelled_at = cn'.cancelled_at })
          s.control_numbers.rows);
  })
  audit_number "control_number.cancelled" actor cn'.tenant cn'
  pure cn'

-- The filter of `expire_overdue`; a null date is not overdue.
abbrev pub is_overdue : ℕ → Option ℕ → ControlNumber → Bool
is_overdue now tenant cn =
    is_active cn.status
    && (elim cn.expires_at [ none ↦ false | some t ↦ ltb t now ]
        && elim tenant [ none ↦ true | some i ↦ cn.tenant.id == i ])

-- `expire_overdue`
unfoldable pub expire_overdue : Option ℕ → Action ℕ
expire_overdue tenant s =
    let overdue = is_overdue s.now tenant in
    (
      ok (count overdue s.control_numbers.rows),
      record s {
        control_numbers = put_rows s.control_numbers (
            update overdue (λ cn. record cn { status = ControlNumberStatus.expired })
              s.control_numbers.rows);
      },
    )
