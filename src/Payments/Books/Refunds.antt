-- ===== src/Payments/Books/Refunds.antt =====
-- `refund_payment` and `reverse_payment` move the books by steps of the abstract view.
use kusanya.Base.{
  ℕ, Bool, true, false, Option, none, some, ◌≡◌, ◌≢◌, [], ◌∷◌, refl, sym, ◌∙◌, arith, ◌&&◌, ◌==◌,
  if◌then◌else◌,
}
use kusanya.Base.Table.{first, insert}
use kusanya.Base.Int.{ℤ, pos, neg, ltb_ℤ}
use kusanya.Core.Objects.{payment}
use kusanya.Core.Result.{validation}
use kusanya.Tenants.Models.{FeeRefundPolicy}
use kusanya.Ledger.Models.{LedgerEntry, LedgerEntryType, refund, reversal}
use kusanya.Ledger.Services.{post_entry, new_entry}
use kusanya.Revenue.Models.{
  RevenueEvent, RevenueEventType, payment_successful, payment_refunded, payment_reversed,
}
use kusanya.Revenue.Models
use kusanya.Revenue.Services.{
  record_event, new_event, clawback_of, compensate, compensating_entry, is_clawback, is_charge,
  record_payment_refunded, record_payment_reversed,
}
use kusanya.Notifications.Models.{NotificationEventType}
use kusanya.Providers.Interface.{Registry}
use kusanya.Payments.Models.{
  Payment, PaymentStatus, tag, status_in, allowed_transitions, initiated, pending, successful,
  failed, unknown, expired, reversed, refunded,
}
use kusanya.Payments.Status.{transition_to}
use kusanya.Payments.Messages.{notify, dispatch}
use kusanya.Payments.Outcome.{audit_payment}
use kusanya.Payments.Services.{get_adapter}
use kusanya.Payments.Refunds.{
  finish_refund, finish_reversal, refund_payment, reverse_payment, confirms, amount_or,
}
use kusanya.Payments.Books.{books, done, next, Holds, has_succeeded, note}
use kusanya.Payments.Books.Frames.{
  Frames, frame_rules, Frames-pure, Frames-gets, Frames-raise, Frames-audit, Frames-notify,
  Frames-dispatch, Frames-ask, Frames-get_adapter,
}
use kusanya.Payments.Books.Moves.{
  Moves, Holds-eq, Moves-frame, Moves-bind, Moves-after, Moves-if, transition_to-Moves,
}
use kusanya.Store.{Store}
use kusanya.Store.Action.{Action, pure, raise, ask, gets, ◌>>=◌, ◌>>◌}

abbrev IsNew : RevenueEventType → Type 0
IsNew ev = Models.tag ev ≢ Models.tag payment_successful

-- The entry that compensates `e`.
abbrev pub compensation : LedgerEntry → LedgerEntryType → ℤ → ℕ → LedgerEntry
compensation e ty amount =
    new_entry e.tenant ty e.account amount e.currency e.reference e.source (some e.id)

module _ (p : Payment) (ev : RevenueEventType) (new : IsNew ev) (ty : LedgerEntryType) where
  abbrev recording : ℤ × Option LedgerEntry → Action RevenueEvent
  recording (amount, entry) = record_event p.tenant ev amount p.currency (payment p.id) entry

  abbrev event_of : ℤ → Option LedgerEntry → ℕ → RevenueEvent
  event_of amount entry = new_event p.tenant ev amount p.currency (payment p.id) entry

  record-Moves :
      (policy : FeeRefundPolicy) (o : Option RevenueEvent) (s : Store)
      → Moves (clawback_of policy o ty >>= recording) s
  unfolding clawback_of record_event post_entry ◌>>=◌
  record-Moves policy none s = record {
    run = next done (note (event_of (pos 0) none) s.ledger (λ i. new) [] refl);
  }
  record-Moves policy (some e) s =
      by_test (is_clawback policy && ltb_ℤ (pos 0) e.amount) e.ledger_entry
    where
      by_test :
          (b : Bool) (o : Option LedgerEntry)
          → Moves
              ((if b
                  then (do
                    entry ← compensating_entry o ty (neg e.amount)
                    pure (neg e.amount, entry))
                  else pure (pos 0, none))
                >>= recording)
              s
      by_test false o = record {
        run = next done (note (event_of (pos 0) none) s.ledger (λ i. new) [] refl);
      }
      by_test true none = record {
        run = next done (note (event_of (neg e.amount) none) s.ledger (λ i. new) [] refl);
      }
      by_test true (some x) =
          let row = compensation x ty (neg e.amount) in
          record {
            run = next done (
                note (event_of (neg e.amount) (some (row s.ledger.next))) (insert s.ledger row)
                  (λ i. new) (row s.ledger.next ∷ []) refl);
          }

  compensate-Moves : (s : Store) → Moves (compensate p ev ty) s
  unfolding compensate
  compensate-Moves s =
      Moves-bind (gets (λ s. first (is_charge p) s.revenue.rows)) _ s
        (Moves-frame _ s (Frames-gets _)) (λ o e. record-Moves p.tenant.fee_refund_policy o _)

-- Only a success is refunded or reversed.
from_success :
    (st : PaymentStatus)
    → ((status_in refunded (allowed_transitions st) ≡ true) → has_succeeded st ≡ true)
      × ((status_in reversed (allowed_transitions st) ≡ true) → has_succeeded st ≡ true)
unfolding allowed_transitions
from_success successful = (λ h. refl, λ h. refl)
from_success initiated = (λ h. cc, λ h. cc)
from_success pending = (λ h. cc, λ h. cc)
from_success failed = (λ h. cc, λ h. cc)
from_success unknown = (λ h. cc, λ h. cc)
from_success expired = (λ h. cc, λ h. cc)
from_success reversed = (λ h. cc, λ h. cc)
from_success refunded = (λ h. cc, λ h. cc)

refunded_new : IsNew payment_refunded
refunded_new e = ground arith

reversed_new : IsNew payment_reversed
reversed_new e = ground arith

refund_tail :
    (q : Payment)
    → Frames (
        dispatch q "payment.refunded"
        >> (notify q NotificationEventType.payment_refunded [] >> pure q))
refund_tail q = search (frame_rules, Frames-notify, Frames-dispatch)

reverse_tail :
    (q : Payment)
    → Frames (
        dispatch q "payment.reversed"
        >> (notify q NotificationEventType.payment_reversed [] >> pure q))
reverse_tail q = search (frame_rules, Frames-notify, Frames-dispatch)

module _ (p : Payment) (actor : Option ℕ) (s : Store) (h : Holds p (books s)) where
  finish_refund-Moves : Moves (finish_refund p actor) s
  unfolding finish_refund record_payment_refunded
  finish_refund-Moves =
      Moves-bind (transition_to p refunded "") _ s
        (transition_to-Moves p "" s refunded h (λ go. sym ((from_success p.status).0 go)))
        (λ q e.
          Moves-after (audit_payment "payment.refunded" actor q) _ _
            (Frames-audit "payment.refunded" actor q)
            (λ u t same.
              Moves-bind (record_payment_refunded q) _ t
                (compensate-Moves q payment_refunded refunded_new refund t)
                (λ v e'. Moves-frame _ _ (refund_tail q))))

  finish_reversal-Moves : Moves (finish_reversal p actor) s
  unfolding finish_reversal record_payment_reversed
  finish_reversal-Moves =
      Moves-bind (transition_to p reversed "") _ s
        (transition_to-Moves p "" s reversed h (λ go. sym ((from_success p.status).1 go)))
        (λ q e.
          Moves-after (audit_payment "payment.reversed" actor q) _ _
            (Frames-audit "payment.reversed" actor q)
            (λ u t same.
              Moves-bind (record_payment_reversed q) _ t
                (compensate-Moves q payment_reversed reversed_new reversal t)
                (λ v e'. Moves-frame _ _ (reverse_tail q))))

module _ (registry : Registry) (p : Payment) (actor : Option ℕ) (s : Store)
    (h : Holds p (books s)) where
  -- A refund moves the books by steps of the abstract view.
  pub refund_payment-Moves : (amount : Option ℤ) → Moves (refund_payment registry p amount actor) s
  unfolding refund_payment
  refund_payment-Moves amount =
      Moves-if (tag p.status == tag successful) _ (raise validation) s
        (λ paid.
          Moves-after (get_adapter registry p.provider) _ s (Frames-get_adapter registry p.provider)
            (λ a t e.
              Moves-after (ask (a.refund p.provider_reference (amount_or amount p.amount))) _ t
                (Frames-ask _)
                (λ r u e'.
                  Moves-if (confirms r.outcome) (finish_refund p actor) (pure p) u
                    (λ c. finish_refund-Moves p actor u (Holds-eq p (e' ∙ e) h))
                    (λ c. Moves-frame (pure p) u (Frames-pure p)))))
        (λ unpaid. Moves-frame (raise validation) s (Frames-raise validation))

  pub reverse_payment-Moves : Moves (reverse_payment registry p actor) s
  unfolding reverse_payment
  reverse_payment-Moves =
      Moves-if (tag p.status == tag successful) _ (raise validation) s
        (λ paid.
          Moves-after (get_adapter registry p.provider) _ s (Frames-get_adapter registry p.provider)
            (λ a t e.
              Moves-after (ask (a.reverse p.provider_reference)) _ t (Frames-ask _) (λ r u e'.
                Moves-if (confirms r.outcome) (finish_reversal p actor) (pure p) u
                  (λ c. finish_reversal-Moves p actor u (Holds-eq p (e' ∙ e) h))
                  (λ c. Moves-frame (pure p) u (Frames-pure p)))))
        (λ unpaid. Moves-frame (raise validation) s (Frames-raise validation))
