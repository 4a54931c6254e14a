-- ===== src/Notifications/Defaults.antt =====
-- apps/notifications/defaults.py: the copy that a tenant without a template of its own sends.
use kusanya.Base.{String, Option, none, some}
use kusanya.Notifications.Models.{
  NotificationEventType, NotificationChannel, email, sms, bill_created, control_number_generated,
  payment_pending, payment_successful, payment_failed, payment_partial, bill_fully_paid,
  balance_reminder, payment_reversed, payment_refunded,
}

pub record Copy : Type 0 where
  pub subject : String
  pub body : String

-- `DEFAULT_TEMPLATES`
unfoldable pub default_templates : NotificationEventType → NotificationChannel → Option Copy
default_templates bill_created email = some (record {
  subject = "New bill from {institution_name}";
  body =
      "Dear {customer_name},\n\n{institution_name} has issued bill {bill_number}.\n\nRegards,\n{institution_name}";
})
default_templates bill_created sms =
    some (record { subject = ""; body = "{institution_name}: new bill {bill_number} issued." })
default_templates control_number_generated email = some (record {
  subject = "Your control number from {institution_name}";
  body =
      "Dear {customer_name},\n\nUse control number {control_number} to pay bill {bill_number} at {institution_name}.\n\nRegards,\n{institution_name}";
})
default_templates control_number_generated sms = some (record {
  subject = "";
  body = "{institution_name}: pay using control number {control_number}.";
})
default_templates payment_pending email = some (record {
  subject = "Payment pending — {institution_name}";
  body =
      "Dear {customer_name},\n\nYour payment (ref {payment_reference}) against control number {control_number} is pending confirmation.\n\nRegards,\n{institution_name}";
})
default_templates payment_pending sms =
    some
      (record { subject = ""; body = "{institution_name}: payment {payment_reference} pending." })
default_templates payment_successful email = some (record {
  subject = "Payment received — {institution_name}";
  body =
      "Dear {customer_name},\n\nWe have received your payment of {paid_amount} (ref {payment_reference}) against control number {control_number}.\nRemaining balance: {remaining_balance}.\nReceipt: {receipt_number}.\n\nRegards,\n{institution_name}";
})
default_templates payment_successful sms = some (record {
  subject = "";
  body =
      "{institution_name}: payment of {paid_amount} received. Balance {remaining_balance}. Receipt {receipt_number}.";
})
default_templates payment_partial email = some (record {
  subject = "Partial payment received — {institution_name}";
  body =
      "Dear {customer_name},\n\nWe have received a partial payment of {paid_amount} against bill {bill_number}. Remaining balance: {remaining_balance}.\n\nRegards,\n{institution_name}";
})
default_templates payment_partial sms = some (record {
  subject = "";
  body = "{institution_name}: partial payment {paid_amount} received. Balance {remaining_balance}.";
})
default_templates bill_fully_paid email = some (record {
  subject = "Bill fully paid — {institution_name}";
  body =
      "Dear {customer_name},\n\nBill {bill_number} is now fully paid. Thank you.\n\nRegards,\n{institution_name}";
})
default_templates bill_fully_paid sms = some (record {
  subject = "";
  body = "{institution_name}: bill {bill_number} fully paid. Thank you.";
})
default_templates payment_failed email = some (record {
  subject = "Payment failed — {institution_name}";
  body =
      "Dear {customer_name},\n\nYour payment (ref {payment_reference}) against control number {control_number} could not be completed. Please try again.\n\nRegards,\n{institution_name}";
})
default_templates payment_failed sms = some (record {
  subject = "";
  body = "{institution_name}: payment {payment_reference} failed. Please try again.";
})
default_templates payment_reversed email = some (record {
  subject = "Payment reversed — {institution_name}";
  body =
      "Dear {customer_name},\n\nYour payment (ref {payment_reference}) has been reversed.\n\nRegards,\n{institution_name}";
})
default_templates payment_reversed sms =
    some
      (record { subject = ""; body = "{institution_name}: payment {payment_reference} reversed." })
default_templates payment_refunded email = some (record {
  subject = "Payment refunded — {institution_name}";
  body =
      "Dear {customer_name},\n\nYour payment (ref {payment_reference}) of {paid_amount} has been refunded.\n\nRegards,\n{institution_name}";
})
default_templates payment_refunded sms =
    some
      (record { subject = ""; body = "{institution_name}: payment {payment_reference} refunded." })
default_templates balance_reminder email = some (record {
  subject = "Balance reminder — {institution_name}";
  body =
      "Dear {customer_name},\n\nThis is a reminder that bill {bill_number} has an outstanding balance of {remaining_balance}.\n\nRegards,\n{institution_name}";
})
default_templates balance_reminder sms = some (record {
  subject = "";
  body = "{institution_name}: bill {bill_number} balance {remaining_balance} due.";
})
default_templates _ _ = none
