-- ===== src/Payments/Status.antt =====
-- apps/payments/models.py: the methods of `Payment` that write the database.
use kusanya.Base.{ℕ, String, Bool, ◌==◌, if◌then◌else◌}
use kusanya.Base.Table.{update, put_rows}
use kusanya.Core.Result.{ok, err, validation}
use kusanya.Payments.Models.{
  Payment, PaymentStatus, status_in, allowed_transitions, enter_status, store_status,
  store_reference,
}
use kusanya.Store.Action.{Action, ⊤}

abbrev pub has_id : ℕ → Payment → Bool
has_id i p = p.id == i

-- `payment.save(update_fields=[...])`: the row of the payment takes the fields that `f` copies.
unfoldable pub save_fields : ℕ → (Payment → Payment) → Action ⊤
save_fields i f s =
    (ok tt, record s { payments = put_rows s.payments (update (has_id i) f s.payments.rows) })

-- `Payment.transition_to`: the payment as the caller holds it decides; its row is written.
unfoldable pub transition_to : Payment → PaymentStatus → String → Action Payment
unfolding save_fields
transition_to p st reason s =
    if status_in st (allowed_transitions p.status)
    then (let p' = enter_status s.now st reason p in
        (ok p', (save_fields p.id (store_status p') s).1))
    else (err validation, s)

-- `payment.provider_reference = ...; payment.save(update_fields=["provider_reference", ...])`
unfoldable pub set_reference : Payment → String → Action Payment
unfolding save_fields
set_reference p reference s =
    let p' = record p { provider_reference = reference } in
    (ok p', (save_fields p.id (store_reference p') s).1)
