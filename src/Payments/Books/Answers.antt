-- ===== src/Payments/Books/Answers.antt =====
-- The answer of a provider to a new payment, or its exception, moves the books by abstract steps.
use kusanya.Base.{ℕ, String, Option, none, [], refl, ap, sym, ◌∙◌, arith, if◌then◌else◌}
use kusanya.Base.Table.{first-update, touched}
use kusanya.Core.Result.{
  Result, ok, err, integrity, provider_error, provider_timeout, invalid_signature, validation,
  does_not_exist, key_error, value_error, data_error,
}
use kusanya.Providers.Models.{ProviderOutcome}
use kusanya.Providers.Interface.{ProviderResult}
use kusanya.Base.Int.{pos}
use kusanya.Core.Objects.{payment}
use kusanya.Revenue.Models.{payment_failed}
use kusanya.Revenue.Services.{record_payment_failed, new_event}
use kusanya.Notifications.Models.{NotificationEventType}
use kusanya.Payments.Models.{Payment, unknown, failed, store_reference}
use kusanya.Payments.Status.{has_id, transition_to, set_reference}
use kusanya.Payments.Messages.{notify}
use kusanya.Payments.Outcome.{audit_payment, apply_outcome}
use kusanya.Payments.Services.{
  timeout_reason, after_timeout, after_provider_error, after_answer, handle_answer,
}
use kusanya.Payments.Books.{books, Evolves-trans, done, next, Holds, learn, note}
use kusanya.Payments.Books.Frames.{Frames, frame_rules, Frames-raise, Frames-audit, Frames-notify}
use kusanya.Payments.Books.Moves.{
  Moves, Moves-frame, Moves-bind, Moves-after, Moves-then-pure, transition_to-Moves, from_unsettled,
}
use kusanya.Payments.Books.Outcomes.{apply_outcome-Moves}
use kusanya.Store.{Store}
use kusanya.Store.Action.{pure, ◌>>=◌, ◌>>◌}

pub set_reference-Holds :
    (p : Payment) (reference : String) (s : Store)
    → Holds p (books s)
    → Holds (record p { provider_reference = reference }) (books (set_reference p reference s).1)
unfolding set_reference store_reference
set_reference-Holds p reference s (q, found, same) =
    let p' = record p { provider_reference = reference } in
    (
      (if has_id p.id q then store_reference p' q else q),
      first-update (has_id p.id) (has_id p.id) (store_reference p') s.payments.rows (λ x. refl)
          ∙ ap (touched (has_id p.id) (store_reference p')) found,
      ground (arith, same),
    )

pub set_reference-Moves :
    (p : Payment) (reference : String) (s : Store) → Moves (set_reference p reference) s
unfolding set_reference
set_reference-Moves p reference s = record {
  run = next done (learn (record p { provider_reference = reference }));
}

-- The answer of a provider, applied: the reference is stored first.
pub refer_and_apply-Moves :
    (p : Payment) (reference : String) (o : ProviderOutcome) (actor : Option ℕ) (s : Store)
    → Holds p (books s)
    → Moves (set_reference p reference >>= λ q. apply_outcome q o actor) s
unfolding ◌>>=◌ set_reference
refer_and_apply-Moves p reference o actor s h = record {
  run =
      Evolves-trans (set_reference-Moves p reference s).run
        (apply_outcome-Moves (record p { provider_reference = reference }) actor
          (set_reference p reference s).1 (set_reference-Holds p reference s h) o).run;
}

failure_note-Moves : (p : Payment) (s : Store) → Moves (record_payment_failed p) s
unfolding record_payment_failed
failure_note-Moves p s = record {
  run = next done (
      note (new_event p.tenant payment_failed (pos 0) p.currency (payment p.id) none) s.ledger
        (λ i. ground arith) [] refl);
}

module _ (actor : Option ℕ) (p : Payment) (s : Store) (h : Holds p (books s)) where
  after_timeout-Moves : Moves (after_timeout actor p) s
  unfolding after_timeout
  after_timeout-Moves =
      Moves-bind (transition_to p unknown timeout_reason) _ s
        (transition_to-Moves p timeout_reason s unknown h
          (λ go. sym ((from_unsettled p.status).2 go)))
        (λ q e.
          Moves-then-pure q (audit_payment "payment.unknown" actor q) _
            (Moves-frame _ _ (Frames-audit "payment.unknown" actor q)))

  error_tail : (q : Payment) → Frames (notify q NotificationEventType.payment_failed [] >> pure q)
  error_tail q = search (frame_rules, Frames-notify)

  after_provider_error-Moves : (m : String) → Moves (after_provider_error actor p m) s
  unfolding after_provider_error
  after_provider_error-Moves m =
      Moves-bind (transition_to p failed m) _ s
        (transition_to-Moves p m s failed h (λ go. sym ((from_unsettled p.status).0 go)))
        (λ q e.
          Moves-after (audit_payment "payment.failed" actor q) _ _
            (Frames-audit "payment.failed" actor q)
            (λ u t same.
              Moves-bind (record_payment_failed q) _ t (failure_note-Moves q t)
                (λ v e'. Moves-frame _ _ (error_tail q))))

  pub handle_answer-Moves : (r : Result ProviderResult) → Moves (handle_answer actor p r) s
  unfolding handle_answer after_answer
  handle_answer-Moves (ok a) = refer_and_apply-Moves p a.provider_reference a.outcome actor s h
  handle_answer-Moves (err (provider_timeout m)) = after_timeout-Moves
  handle_answer-Moves (err (provider_error m)) = after_provider_error-Moves m
  handle_answer-Moves (err (invalid_signature m)) = after_provider_error-Moves m
  handle_answer-Moves (err validation) = Moves-frame _ s (Frames-raise validation)
  handle_answer-Moves (err integrity) = Moves-frame _ s (Frames-raise integrity)
  handle_answer-Moves (err does_not_exist) = Moves-frame _ s (Frames-raise does_not_exist)
  handle_answer-Moves (err key_error) = Moves-frame _ s (Frames-raise key_error)
  handle_answer-Moves (err value_error) = Moves-frame _ s (Frames-raise value_error)
  handle_answer-Moves (err data_error) = Moves-frame _ s (Frames-raise data_error)
