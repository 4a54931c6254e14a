-- ===== src/Store.antt =====
-- The database that the services share, and the actions on it: a call takes the store, and returns
-- or raises with the store that it leaves. What was written before a raise stays written, until
-- the request or the `transaction.atomic()` block that it leaves is rolled back.
pub mod Action
use kusanya.Base.{ℕ, String, List, Option}
use kusanya.Base.Int.{ℤ}
use kusanya.Base.Table.{Table}
use kusanya.ControlNumbers.Models.{ControlNumber}
use kusanya.Billing.Models.{Bill, BillItem, PaymentAllocation}
use kusanya.Payments.Models.{Payment, PaymentCallbackEvent}
use kusanya.Providers.Models.{Sandbox}
use kusanya.Ledger.Models.{LedgerEntry}
use kusanya.Revenue.Models.{RevenueEvent}
use kusanya.Receipts.Models.{Receipt}
use kusanya.Notifications.Models.{Notification, NotificationTemplate, Context}
use kusanya.Webhooks.Models.{WebhookEndpoint, WebhookDelivery}
use kusanya.Settlement.Models.{SettlementBatch}
use kusanya.Reconciliation.Models.{ReconciliationRun, ReconciliationException}
use kusanya.Audit.Models.{AuditEvent}

-- `now` is `timezone.now()`, which does not move within a call, `date` its text by `%Y%m%d` and
-- `short_date` by `%y%m%d`; `uuids` are the texts that the
-- next `uuid.uuid4().hex[:n].upper()` will give. `format_map` is Python's `str.format_map` over a
-- `_SafeDict`, nothing where it raises, and `round_column` the rounding by which the database keeps
-- a number of four decimal places in a column of two: both are the libraries'.
pub record Store : Type 0 where
  pub now : ℕ
  pub date : String
  pub short_date : String
  pub uuids : ℕ → String
  pub format_map : String → Context → Option String
  pub round_column : ℤ → ℤ
  pub sandbox : Sandbox
  pub bills : Table Bill
  pub items : Table BillItem
  pub allocations : Table PaymentAllocation
  pub control_numbers : Table ControlNumber
  pub payments : Table Payment
  pub callback_events : Table PaymentCallbackEvent
  pub ledger : Table LedgerEntry
  pub revenue : Table RevenueEvent
  pub receipts : Table Receipt
  pub templates : List NotificationTemplate
  pub notifications : Table Notification
  pub endpoints : List WebhookEndpoint
  pub deliveries : Table WebhookDelivery
  pub batches : Table SettlementBatch
  pub runs : Table ReconciliationRun
  pub exceptions : Table ReconciliationException
  pub audit : List AuditEvent
