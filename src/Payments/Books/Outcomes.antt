-- ===== src/Payments/Books/Outcomes.antt =====
-- `_apply_outcome` moves the books by steps of the abstract view.
use kusanya.Base.{
  ℕ, true, false, Option, ◌≡◌, ◌∷◌, [], ap, refl, sym, ◌∙◌, arith, Bool-cases, inl, inr, ◌==◌,
}
use kusanya.Core.Result.{Result}
use kusanya.Providers.Models.{ProviderOutcome}
use kusanya.Payments.Models.{
  Payment, tag, status_in, allowed_transitions, enter_status, store_status, initiated, pending,
  successful, failed, unknown,
}
use kusanya.Payments.Status.{transition_to, save_fields}
use kusanya.Payments.Outcome.{
  audit_payment, after_successful, after_failed, after_pending, after_transition, apply_unknown,
  apply_status, apply_outcome, outcome_to_status,
}
use kusanya.Payments.Books.{books, done, next, Holds, charge, write_row, succeed}
use kusanya.Payments.Books.Frames.{Frames-pure, Frames-audit}
use kusanya.Store.{Store}
use kusanya.Store.Action.{Action, pure, continue, ◌>>=◌, ◌>>◌}
use kusanya.Payments.Books.Moves.{
  Moves, Evolves-eq, Moves-frame, Moves-bind, Moves-if, Moves-then-pure, books-after_successful,
  after_failed-Moves, after_pending-Frames, from_unsettled, not_yet, if_false, then-pure,
  transition_to-Moves, transition_to-run, transition_to-refused,
}

-- The books after a success: the row, the three ledger entries and the fee.
pub books-apply_successful :
    (p : Payment) (actor : Option ℕ) (s : Store)
    → status_in successful (allowed_transitions p.status) ≡ true
    → let p' = enter_status s.now successful "" p in
      books (apply_status p successful actor s).1
      ≡ charge p' (write_row (store_status p') p.id (books s))
unfolding apply_status after_transition save_fields ◌>>=◌
books-apply_successful p actor s go =
    let p' = enter_status s.now successful "" p in
    let s' = (save_fields p.id (store_status p') s).1 in
    ap (λ (m : Action Payment). books (m s).1) (if_false _ _ (not_yet p.status go))
    ∙ ap books (
        ap
          (λ (r : Result Payment × Store).
            (continue r.0 (λ q. after_successful actor q >> pure q) r.1).1)
          (transition_to-run p "" s successful go))
    ∙ ap books (then-pure p' (after_successful actor p') s')
    ∙ books-after_successful actor p' s'

module _ (p : Payment) (actor : Option ℕ) (s : Store) (h : Holds p (books s)) where
  apply_unknown-Moves : Moves (apply_unknown p actor) s
  unfolding apply_unknown
  apply_unknown-Moves =
      Moves-if (status_in p.status (initiated ∷ pending ∷ [])) _ (pure p) s
        (λ early.
          Moves-bind (transition_to p unknown "") _ s
            (transition_to-Moves p "" s unknown h (λ go. sym ((from_unsettled p.status).2 go)))
            (λ q e.
              Moves-then-pure q (audit_payment "payment.unknown" actor q) _
                (Moves-frame _ _ (Frames-audit "payment.unknown" actor q))))
        (λ late. Moves-frame (pure p) s (Frames-pure p))

  apply_failed-Moves : Moves (apply_status p failed actor) s
  unfolding apply_status after_transition
  apply_failed-Moves =
      Moves-if (tag p.status == tag failed) (pure p) _ s
        (λ same. Moves-frame (pure p) s (Frames-pure p))
        (λ other.
          Moves-bind (transition_to p failed "") _ s
            (transition_to-Moves p "" s failed h (λ go. sym ((from_unsettled p.status).0 go)))
            (λ q e. Moves-then-pure q (after_failed actor q) _ (after_failed-Moves actor q _)))

  apply_pending-Moves : Moves (apply_status p pending actor) s
  unfolding apply_status after_transition
  apply_pending-Moves =
      Moves-if (tag p.status == tag pending) (pure p) _ s
        (λ same. Moves-frame (pure p) s (Frames-pure p))
        (λ other.
          Moves-bind (transition_to p pending "") _ s
            (transition_to-Moves p "" s pending h (λ go. sym ((from_unsettled p.status).1 go)))
            (λ q e.
              Moves-then-pure q (after_pending actor q) _
                (Moves-frame _ _ (after_pending-Frames actor q))))

  refused-Moves :
      status_in successful (allowed_transitions p.status) ≡ false
      → Moves (apply_status p successful actor) s
  unfolding apply_status after_transition
  refused-Moves stop =
      let refusal = transition_to-refused p "" s successful stop in
      Moves-if (tag p.status == tag successful) (pure p) _ s
        (λ same. Moves-frame (pure p) s (Frames-pure p))
        (λ other.
          Moves-bind (transition_to p successful "") _ s (record { run = rw refusal done })
            (λ q e. absurd (ground (arith, refusal, e))))

  apply_successful-Moves : Moves (apply_status p successful actor) s
  unfolding enter_status
  apply_successful-Moves = elim (Bool-cases (status_in successful (allowed_transitions p.status))) [
    | inl go ↦ record {
      run =
          Evolves-eq (next done (succeed p (enter_status s.now successful "" p) h refl refl go))
            (books-apply_successful p actor s go);
    }
    | inr stop ↦ refused-Moves stop
  ]

  -- Whatever the provider says, the books move by steps of the abstract view.
  pub apply_outcome-Moves : (o : ProviderOutcome) → Moves (apply_outcome p o actor) s
  unfolding apply_outcome outcome_to_status
  apply_outcome-Moves ProviderOutcome.unknown = apply_unknown-Moves
  apply_outcome-Moves ProviderOutcome.failed = apply_failed-Moves
  apply_outcome-Moves ProviderOutcome.pending = apply_pending-Moves
  apply_outcome-Moves ProviderOutcome.successful = apply_successful-Moves
