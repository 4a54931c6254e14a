-- ===== src/Payments/Messages.antt =====
-- apps/payments/services.py: what a payment tells the tenant's systems and its customer.
use kusanya.Base.{String, Option, none, some, List, [], ◌∷◌}
use kusanya.Core.Objects.{Value, text, money, key, null}
use kusanya.Customers.Models.{Customer}
use kusanya.ControlNumbers.Models.{Owner}
use kusanya.Billing.Models.{Bill, BillStatus}
use kusanya.Billing.Account.{bill_of, balance}
use kusanya.Notifications.Models.{NotificationEventType, Context}
use kusanya.Notifications.Services.{send_notification}
use kusanya.Webhooks.Services.{dispatch_event}
use kusanya.Payments.Models.{Payment, value}
use kusanya.Receipts.Models.{Receipt}
use kusanya.Store.{Store}
use kusanya.Store.Action.{Action, ⊤, pure, gets, ◌>>=◌, ◌>>◌}

abbrev pub bill_number_or : Value → Option Bill → Value
bill_number_or d none = d
bill_number_or d (some b) = text b.bill_number

abbrev pub payload : Payment → Option Bill → List (String × Value)
payload p bill =
    ("payment_id", key p.id)
    ∷ ("merchant_reference", text p.merchant_reference)
    ∷ ("provider_reference", text p.provider_reference)
    ∷ ("control_number", text p.control_number.value)
    ∷ ("bill_number", bill_number_or null bill)
    ∷ ("amount", money p.amount)
    ∷ ("currency", text p.currency)
    ∷ ("status", text (value p.status))
    ∷ []

-- `_dispatch`
unfoldable pub dispatch : Payment → String → Action ⊤
unfolding bill_of dispatch_event
dispatch p event_type = do
  bill ← bill_of p.control_number.owner
  dispatch_event p.tenant event_type (payload p bill)

-- `_customer_for_payment`, where the control number's bill has been read.
abbrev pub customer_for : Owner → Option Bill → Option Customer
customer_for (Owner.account a) b = some a.customer
customer_for (Owner.bill i) none = none
customer_for (Owner.bill i) (some b) = some b.customer_account.customer

-- `_notification_context`; the keys of `extra` come later in a dict, and here at the end.
abbrev pub notification_context : Payment → Customer → Option Bill → Context → Context
notification_context p customer bill extra =
    ("institution_name", text p.tenant.name)
    ∷ ("customer_name", text customer.full_name)
    ∷ ("bill_number", bill_number_or (text "") bill)
    ∷ ("control_number", text p.control_number.value)
    ∷ ("payment_reference", text p.merchant_reference)
    ∷ extra

-- `send_notification` to the customer, who is always there: the owner of a control number is a
-- bill or an account.
unfoldable pub notify_customer :
    Payment → NotificationEventType → Context → Option Bill → Option Customer → Action ⊤
unfolding send_notification
notify_customer p ev extra bill none = pure tt
notify_customer p ev extra bill (some c) = do
  send_notification p.tenant ev (notification_context p c bill extra) c.email c.phone_number
  pure tt

-- `_notify`
unfoldable pub notify : Payment → NotificationEventType → Context → Action ⊤
unfolding bill_of notify_customer
notify p ev extra = do
  bill ← bill_of p.control_number.owner
  notify_customer p ev extra bill (customer_for p.control_number.owner bill)

-- The choice of `_notify_payment_successful`, by the bill as the allocation has left it.
unfoldable pub success_event : Option Bill → NotificationEventType
success_event none = NotificationEventType.payment_successful
success_event (some b) = elim b.status [
  | BillStatus.paid ↦ NotificationEventType.bill_fully_paid
  | BillStatus.partially_paid ↦ NotificationEventType.payment_partial
  | _ ↦ NotificationEventType.payment_successful
]

abbrev pub remaining : Option Bill → Store → Value
remaining none s = text ""
remaining (some b) s = money (balance s.allocations.rows b)

-- `_notify_payment_successful`
unfoldable pub notify_payment_successful : Payment → Receipt → Action ⊤
unfolding notify
notify_payment_successful p receipt = do
  bill ← bill_of p.control_number.owner
  rest ← gets (remaining bill)
  notify p (success_event bill) (
      ("paid_amount", money p.amount)
      ∷ ("remaining_balance", rest)
      ∷ ("receipt_number", text receipt.receipt_number)
      ∷ [])
