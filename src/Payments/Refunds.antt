-- ===== src/Payments/Refunds.antt =====
-- apps/payments/services.py: `refund_payment` and `reverse_payment`.
use kusanya.Base.{ℕ, Bool, Option, none, some, [], ◌==◌, if◌then◌else◌}
use kusanya.Base.Int.{ℤ}
use kusanya.Core.Result.{validation}
use kusanya.Providers.Models.{ProviderOutcome}
use kusanya.Providers.Interface.{Registry}
use kusanya.Revenue.Services.{record_payment_refunded, record_payment_reversed}
use kusanya.Notifications.Models.{NotificationEventType}
use kusanya.Payments.Models.{Payment, tag, successful, reversed, refunded}
use kusanya.Payments.Status.{transition_to}
use kusanya.Payments.Messages.{dispatch, notify}
use kusanya.Payments.Outcome.{audit_payment}
use kusanya.Payments.Services.{get_adapter}
use kusanya.Store.Action.{Action, pure, raise, ask, ◌>>=◌, ◌>>◌}

-- What follows a refund that the provider has confirmed.
unfoldable pub finish_refund : Payment → Option ℕ → Action Payment
unfolding transition_to audit_payment record_payment_refunded dispatch notify
finish_refund p actor = do
  p' ← transition_to p refunded ""
  audit_payment "payment.refunded" actor p'
  record_payment_refunded p'
  dispatch p' "payment.refunded"
  notify p' NotificationEventType.payment_refunded []
  pure p'

unfoldable pub finish_reversal : Payment → Option ℕ → Action Payment
unfolding transition_to audit_payment record_payment_reversed dispatch notify
finish_reversal p actor = do
  p' ← transition_to p reversed ""
  audit_payment "payment.reversed" actor p'
  record_payment_reversed p'
  dispatch p' "payment.reversed"
  notify p' NotificationEventType.payment_reversed []
  pure p'

-- `result.outcome == ProviderOutcome.SUCCESSFUL`
abbrev pub confirms : ProviderOutcome → Bool
confirms ProviderOutcome.successful = Bool.true
confirms _ = Bool.false

-- `amount if amount is not None else payment.amount`
abbrev pub amount_or : Option ℤ → ℤ → ℤ
amount_or none d = d
amount_or (some a) d = a

-- `refund_payment`
unfoldable pub refund_payment : Registry → Payment → Option ℤ → Option ℕ → Action Payment
unfolding get_adapter ask finish_refund
refund_payment registry p amount actor =
    if tag p.status == tag successful
    then (do
      adapter ← get_adapter registry p.provider
      result ← ask (adapter.refund p.provider_reference (amount_or amount p.amount))
      if confirms result.outcome then finish_refund p actor else pure p)
    else raise validation

-- `reverse_payment`
unfoldable pub reverse_payment : Registry → Payment → Option ℕ → Action Payment
unfolding get_adapter ask finish_reversal
reverse_payment registry p actor =
    if tag p.status == tag successful
    then (do
      adapter ← get_adapter registry p.provider
      result ← ask (adapter.reverse p.provider_reference)
      if confirms result.outcome then finish_reversal p actor else pure p)
    else raise validation
