-- ===== src/Payments/Books/Callbacks.antt =====
-- `process_callback` moves the books by steps of the abstract view.
use kusanya.Base.{ℕ, String, Option, none, some, ◌≡◌, [], refl, sym, subst, ◌∙◌, arith}
use kusanya.Base.Int.{pos}
use kusanya.Base.Table.{first}
use kusanya.Core.Result.{
  Result, ok, err, validation, integrity, does_not_exist, key_error, value_error, data_error,
  provider_error, provider_timeout, invalid_signature,
}
use kusanya.Core.Objects.{payment}
use kusanya.Providers.Models.{PaymentProvider}
use kusanya.Providers.Interface.{Registry, ProviderCallbackResult, Metadata}
use kusanya.Revenue.Models.{payment_duplicate}
use kusanya.Revenue.Services.{record_payment_duplicate, new_event}
use kusanya.Payments.Models.{Payment, PaymentCallbackEvent, CallbackOutcome, processed}
use kusanya.Payments.Outcome.{apply_outcome}
use kusanya.Payments.Services.{get_adapter, attempt}
use kusanya.Payments.Callbacks.{
  create_event, save_event, audit_event, reject_signature, payment_of, is_delivery, is_taken, id_of,
  tenant_of, charge_nothing, log_duplicate, settle_event, match_event, record_callback,
  handle_callback, process_callback, has_reference,
}
use kusanya.Payments.Books.{books, done, next, Holds, note}
use kusanya.Payments.Books.Frames.{
  Frames, frame_rules, Frames-pure, Frames-gets, Frames-raise, Frames-ask, Frames-get_adapter,
}
use kusanya.Payments.Books.Keys.{KeyedBooks, first-has_id}
use kusanya.Payments.Books.Moves.{Moves, Holds-eq, Moves-frame, Moves-bind, Moves-after, Moves-if}
use kusanya.Payments.Books.Outcomes.{apply_outcome-Moves}
use kusanya.Payments.Books.Refines.{Frames-attempt}
use kusanya.Store.{Store}
use kusanya.Store.Action.{pure, gets, ask, ◌>>=◌, ◌>>◌}

Frames-create_event :
    (provider : PaymentProvider) (e : String) (i : Option ℕ) (o : CallbackOutcome)
    → Frames (create_event provider e i o)
unfolding create_event
Frames-create_event provider e i o = record { at = λ s. ground arith }

Frames-save_event : (e : PaymentCallbackEvent) → Frames (save_event e)
unfolding save_event
Frames-save_event e = record { at = λ s. refl }

Frames-audit_event :
    (action : String) (actor tenant : Option ℕ) (e : PaymentCallbackEvent)
    → Frames (audit_event action actor tenant e)
unfolding audit_event
Frames-audit_event action actor tenant e = record { at = λ s. refl }

reject_signature-Frames :
    (provider : PaymentProvider) (actor : Option ℕ) → Frames (reject_signature provider actor)
unfolding reject_signature
reject_signature-Frames provider actor =
    search (frame_rules, Frames-create_event, Frames-audit_event)

charge_nothing-Moves : (o : Option Payment) (s : Store) → Moves (charge_nothing o) s
unfolding charge_nothing record_payment_duplicate ◌>>=◌
charge_nothing-Moves none s = Moves-frame _ s (Frames-pure tt)
charge_nothing-Moves (some p) s = record {
  run = next done (
      note (new_event p.tenant payment_duplicate (pos 0) p.currency (payment p.id) none) s.ledger
        (λ i. ground arith) [] refl);
}

log_duplicate-Moves :
    (provider : PaymentProvider) (parsed : ProviderCallbackResult) (actor : Option ℕ) (s : Store)
    → Moves (log_duplicate provider parsed actor) s
unfolding log_duplicate
log_duplicate-Moves provider parsed actor s =
    Moves-after
      (gets (λ t. first (is_delivery provider.id parsed.external_event_id) t.callback_events.rows))
      _ s (Frames-gets _)
      (λ o t1 e1. Moves-after (gets (payment_of o)) _ t1 (Frames-gets _) (λ paid t2 e2.
        Moves-after (create_event provider "" (id_of paid) CallbackOutcome.duplicate) _ t2
          (Frames-create_event provider "" (id_of paid) CallbackOutcome.duplicate)
          (λ dup t3 e3.
            Moves-after (audit_event "payment.callback_duplicate" actor (tenant_of paid) dup) _ t3
              (Frames-audit_event _ actor _ dup)
              (λ u t4 e4.
                Moves-bind (charge_nothing paid) _ t4 (charge_nothing-Moves paid t4)
                  (λ v e5. Moves-frame _ _ (Frames-pure dup))))))

unmatched_tail :
    (event : PaymentCallbackEvent) (actor : Option ℕ)
    → Frames
        (save_event event >>= λ e. audit_event "payment.callback_unmatched" actor none e >> pure e)
unmatched_tail event actor = search (frame_rules, Frames-save_event, Frames-audit_event)

module _ (parsed : ProviderCallbackResult) (actor : Option ℕ) where
  settle_event-Moves :
      (event : PaymentCallbackEvent) (o : Option Payment) (s : Store)
      → ((p : Payment) → o ≡ some p → Holds p (books s))
      → Moves (settle_event event parsed actor o) s
  unfolding settle_event
  settle_event-Moves event none s h = Moves-frame _ s (unmatched_tail _ actor)
  settle_event-Moves event (some p) s h =
      Moves-after (save_event (record event { payment = some p.id })) _ s (Frames-save_event _)
        (λ event' t e.
          Moves-bind (apply_outcome p parsed.outcome actor) _ t
            (apply_outcome-Moves p actor t (Holds-eq p e (h p refl)) parsed.outcome)
            (λ q e'. Moves-frame _ _ (Frames-pure event')))

  match_event-Moves :
      (event : PaymentCallbackEvent) (s : Store)
      → KeyedBooks (books s)
      → Moves (match_event event parsed actor) s
  unfolding match_event ◌>>=◌
  match_event-Moves event s k = record {
    run =
        (settle_event-Moves event (first (has_reference parsed.provider_reference) s.payments.rows)
          s (λ p e. (p, first-has_id _ s.payments.next s.payments.rows k e, refl))).run;
  }

  record_callback-Moves :
      (provider : PaymentProvider) (s : Store)
      → KeyedBooks (books s)
      → Moves (record_callback provider parsed actor) s
  unfolding record_callback
  record_callback-Moves provider s k =
      Moves-after (gets (λ t. is_taken provider.id parsed.external_event_id t.callback_events.rows))
        _ s (Frames-gets _)
        (λ taken t e.
          Moves-if taken (log_duplicate provider parsed actor) _ t
            (λ seen. log_duplicate-Moves provider parsed actor t)
            (λ new.
              Moves-after (create_event provider parsed.external_event_id none processed) _ t
                (Frames-create_event _ _ _ _)
                (λ event t' e'.
                  match_event-Moves event t' (subst (λ b. KeyedBooks b) (sym (e' ∙ e)) k))))

module _ (provider : PaymentProvider) (actor : Option ℕ) where
  handle_callback-Moves :
      (r : Result ProviderCallbackResult) (s : Store)
      → KeyedBooks (books s)
      → Moves (handle_callback provider actor r) s
  unfolding handle_callback
  handle_callback-Moves (ok parsed) s k = record_callback-Moves parsed actor provider s k
  handle_callback-Moves (err (invalid_signature m)) s k =
      Moves-frame _ s (reject_signature-Frames provider actor)
  handle_callback-Moves (err (provider_error m)) s k =
      Moves-frame _ s (Frames-raise (provider_error m))
  handle_callback-Moves (err (provider_timeout m)) s k =
      Moves-frame _ s (Frames-raise (provider_timeout m))
  handle_callback-Moves (err validation) s k = Moves-frame _ s (Frames-raise validation)
  handle_callback-Moves (err integrity) s k = Moves-frame _ s (Frames-raise integrity)
  handle_callback-Moves (err does_not_exist) s k = Moves-frame _ s (Frames-raise does_not_exist)
  handle_callback-Moves (err key_error) s k = Moves-frame _ s (Frames-raise key_error)
  handle_callback-Moves (err value_error) s k = Moves-frame _ s (Frames-raise value_error)
  handle_callback-Moves (err data_error) s k = Moves-frame _ s (Frames-raise data_error)

  -- A callback moves the books by steps of the abstract view.
  pub process_callback-Moves :
      (registry : Registry) (raw : String) (headers : Metadata) (s : Store)
      → KeyedBooks (books s)
      → Moves (process_callback registry provider raw headers actor) s
  unfolding process_callback
  process_callback-Moves registry raw headers s k =
      Moves-after (get_adapter registry provider) _ s (Frames-get_adapter registry provider)
        (λ a t e.
          Moves-after (attempt (ask (a.process_callback raw headers))) _ t
            (Frames-attempt _ (Frames-ask _))
            (λ r t' e'. handle_callback-Moves r t' (subst (λ b. KeyedBooks b) (sym (e' ∙ e)) k)))
