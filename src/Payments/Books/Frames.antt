-- ===== src/Payments/Books/Frames.antt =====
-- The services that leave the books alone: bills, receipts, notifications, webhooks and the audit
-- log. One rule for each way to build an action.
use kusanya.Base.{
  ℕ, String, Bool, true, false, Option, none, some, ◌≡◌, refl, ◌∙◌, arith, List, if◌then◌else◌,
}
use kusanya.Base.Int.{ℤ}
use kusanya.Core.Result.{Result, Error, ok, err}
use kusanya.Core.Objects.{Value}
use kusanya.Tenants.Models.{Tenant}
use kusanya.Customers.Models.{Customer}
use kusanya.ControlNumbers.Models.{Owner}
use kusanya.Billing.Models.{Bill, BillStatus}
use kusanya.Billing.Account.{bill_of, transition_to}
use kusanya.Notifications.Models.{NotificationEventType, Context}
use kusanya.Notifications.Services.{send_notification}
use kusanya.Webhooks.Services.{dispatch_event}
use kusanya.Receipts.Models.{Receipt}
use kusanya.Receipts.Services.{generate_receipt, issue_receipt, create_receipt}
use kusanya.Payments.Models.{Payment}
use kusanya.Payments.Messages.{dispatch, notify, notify_customer, notify_payment_successful}
use kusanya.Payments.Outcome.{
  audit_payment, create_allocation, settle_by, settle_bill, allocate_to, allocate_to_bill,
  settle_success,
}
use kusanya.Payments.Books.{books}
use kusanya.Providers.Interface.{ProviderCall, Registry}
use kusanya.Providers.Models.{PaymentProvider}
use kusanya.Payments.Services.{get_adapter}
use kusanya.Store.{Store}
use kusanya.Store.Action.{Action, pure, raise, gets, modify, continue, ask, draw, or_raise, ◌>>=◌}

pub record Frames {A : Type 0} (m : Action A) : Type 0 where
  pub at : (s : Store) → books (m s).1 ≡ books s

module _ {A : Type 0} where
  pub Frames-pure : (a : A) → Frames (pure a)
  unfolding pure
  Frames-pure a = record { at = λ s. refl }

  pub Frames-raise : (e : Error) → Frames (raise {A = A} e)
  unfolding raise
  Frames-raise e = record { at = λ s. refl }

  pub Frames-gets : (f : Store → A) → Frames (gets f)
  unfolding gets
  Frames-gets f = record { at = λ s. refl }

  pub Frames-or_raise : (o : Option A) (e : Error) → Frames (or_raise o e)
  unfolding or_raise
  Frames-or_raise none e = record { at = λ s. refl }
  Frames-or_raise (some a) e = record { at = λ s. refl }

  pub Frames-ask : (call : ProviderCall A) → Frames (ask call)
  unfolding ask
  Frames-ask call = record { at = λ s. refl }

  pub Frames-if : (b : Bool) (m n : Action A) → Frames m → Frames n → Frames (if b then m else n)
  Frames-if true m n km kn = km
  Frames-if false m n km kn = kn

module _ {A B : Type 0} where
  continue-books :
      (f : A → Action B)
      → ((a : A) → Frames (f a))
      → (r : Result A) (s : Store) → books (continue r f s).1 ≡ books s
  continue-books f kf (ok a) s = (kf a).at s
  continue-books f kf (err e) s = refl

  pub Frames-bind :
      (m : Action A) (f : A → Action B) → Frames m → ((a : A) → Frames (f a)) → Frames (m >>= f)
  unfolding ◌>>=◌
  Frames-bind m f km kf = record { at = λ s. continue-books f kf (m s).0 (m s).1 ∙ km.at s }

pub ruleset frame_rules =
    (Frames-pure, Frames-raise, Frames-gets, Frames-or_raise, Frames-ask, Frames-if, Frames-bind)

pub Frames-audit :
    (action : String) (actor : Option ℕ) (p : Payment) → Frames (audit_payment action actor p)
unfolding audit_payment
Frames-audit action actor p = record { at = λ s. refl }

pub Frames-draw : Frames draw
unfolding draw
Frames-draw = record { at = λ s. refl }

Frames-bill_of : (o : Owner) → Frames (bill_of o)
unfolding bill_of
Frames-bill_of (Owner.account a) = search frame_rules
Frames-bill_of (Owner.bill i) = search frame_rules

Frames-dispatch_event :
    (t : Tenant) (e : String) (l : List (String × Value)) → Frames (dispatch_event t e l)
unfolding dispatch_event
Frames-dispatch_event t e l = record { at = λ s. refl }

Frames-send :
    (t : Tenant) (ev : NotificationEventType) (c : Context) (e p : String)
    → Frames (send_notification t ev c e p)
unfolding send_notification
Frames-send t ev c e p = record { at = λ s. refl }

pub Frames-dispatch : (p : Payment) (event_type : String) → Frames (dispatch p event_type)
unfolding dispatch
Frames-dispatch p event_type = search (frame_rules, Frames-bill_of, Frames-dispatch_event)

Frames-notify_customer :
    (p : Payment) (ev : NotificationEventType) (extra : Context) (b : Option Bill)
    (c : Option Customer)
    → Frames (notify_customer p ev extra b c)
unfolding notify_customer
Frames-notify_customer p ev extra b none = search frame_rules
Frames-notify_customer p ev extra b (some c) = search (frame_rules, Frames-send)

pub Frames-notify :
    (p : Payment) (ev : NotificationEventType) (extra : Context) → Frames (notify p ev extra)
unfolding notify
Frames-notify p ev extra = search (frame_rules, Frames-bill_of, Frames-notify_customer)

Frames-notify_payment_successful :
    (p : Payment) (r : Receipt) → Frames (notify_payment_successful p r)
unfolding notify_payment_successful
Frames-notify_payment_successful p r = search (frame_rules, Frames-bill_of, Frames-notify)

Frames-create_receipt : (row : ℕ → Receipt) → Frames (create_receipt row)
unfolding create_receipt or_raise
Frames-create_receipt row = record { at = λ s. ground arith }

Frames-issue_receipt : (p : Payment) → Frames (issue_receipt p)
unfolding issue_receipt
Frames-issue_receipt p = search (frame_rules, Frames-bill_of, Frames-draw, Frames-create_receipt)

Frames-generate_receipt : (p : Payment) → Frames (generate_receipt p)
unfolding generate_receipt
Frames-generate_receipt p = record { at = λ s. ground (arith, (Frames-issue_receipt p).at s) }

Frames-transition_to : (b : Bill) (st : BillStatus) → Frames (transition_to b st)
unfolding transition_to
Frames-transition_to b st = record { at = λ s. ground arith }

Frames-create_allocation : (p : Payment) (b : Bill) → Frames (create_allocation p b)
unfolding create_allocation modify
Frames-create_allocation p b = record { at = λ s. refl }

Frames-settle_by : (rest : ℤ) (b : Bill) → Frames (settle_by rest b)
unfolding settle_by
Frames-settle_by rest b = search (frame_rules, Frames-transition_to)

Frames-settle_bill : (b : Bill) → Frames (settle_bill b)
unfolding settle_bill
Frames-settle_bill b = search (frame_rules, Frames-settle_by)

Frames-allocate_to : (p : Payment) (b : Option Bill) → Frames (allocate_to p b)
unfolding allocate_to
Frames-allocate_to p none = search frame_rules
Frames-allocate_to p (some b) = search (frame_rules, Frames-create_allocation, Frames-settle_bill)

Frames-allocate_to_bill : (p : Payment) → Frames (allocate_to_bill p)
unfolding allocate_to_bill
Frames-allocate_to_bill p = search (frame_rules, Frames-bill_of, Frames-allocate_to)

-- Bill, receipt and messages of a success are no part of the books.
pub Frames-settle_success : (p : Payment) → Frames (settle_success p)
unfolding settle_success
Frames-settle_success p = search (
  frame_rules, Frames-allocate_to_bill, Frames-generate_receipt, Frames-notify_payment_successful,
  Frames-dispatch,
)

pub Frames-get_adapter :
    (registry : Registry) (provider : PaymentProvider) → Frames (get_adapter registry provider)
unfolding get_adapter
Frames-get_adapter registry provider = search frame_rules
