-- ===== src/Payments/Books/Refines.antt =====
-- Initiation and query move the books by steps of the abstract view.
use kusanya.Base.{
  ℕ, String, Bool, true, false, Option, none, some, ◌≡◌, refl, ap, ◌∙◌, subst, arith, ◌&&◌, inl,
  inr, ◌⊎◌, if◌then◌else◌, not, str_eq, Bool-cases, Option-cases,
}
use kusanya.Base.Table.{first, insert, exists}
use kusanya.Core.Result.{Result, Error, ok, err, integrity}
use kusanya.Providers.Interface.{Registry}
use kusanya.Payments.Models.{Payment, initiated}
use kusanya.Payments.Status.{set_reference}
use kusanya.Payments.Outcome.{audit_payment}
use kusanya.Payments.Services.{
  Initiation, new_payment, refused, conflicts, insert_payment, create_payment, attempt, request_of,
  get_adapter, start_payment, deduplicate, initiate_payment, learn_reference, query_payment,
  has_key,
}
use kusanya.Payments.Books.{Books, books, Evolves-trans, done, next, Holds, open_payment}
use kusanya.Payments.Books.Frames.{
  Frames, Frames-gets, Frames-audit, Frames-ask, Frames-get_adapter, Frames-draw,
}
use kusanya.Payments.Books.Moves.{
  Moves, Evolves-eq, Holds-eq, Moves-frame, Moves-bind, Moves-after, Moves-if, Moves-then-pure,
}
use kusanya.Payments.Books.Outcomes.{apply_outcome-Moves}
use kusanya.Store.{Store}
use kusanya.Store.Action.{Action, pure, ask, gets, draw, ◌>>=◌}
use kusanya.Payments.Books.Answers.{set_reference-Holds, set_reference-Moves, handle_answer-Moves}

-- A payment that was just created stands in the table as its caller sees it.
Holds-new :
    (row : ℕ → Payment) (b : Books)
    → ((i : ℕ) → (row i).id ≡ i)
    → Holds (row b.payments.next) (record b { payments = insert b.payments row })
unfolding first
Holds-new row b same = (row b.payments.next, ground (arith, same b.payments.next), refl)

pub Frames-attempt : {A : Type 0} (m : Action A) → Frames m → Frames (attempt m)
unfolding attempt
Frames-attempt m f = record { at = λ s. f.at s }

insert_payment_cases :
    (row : ℕ → Payment) (s : Store)
    → ((e : Error) × (insert_payment row s ≡ (err e, s)))
      ⊎ (insert_payment row s
          ≡ (ok (row s.payments.next), record s { payments = insert s.payments row }))
unfolding insert_payment
insert_payment_cases row s = elim (Option-cases (refused (row s.payments.next))) [
  | inr (e, long) ↦ inl (e, rw long refl)
  | inl fits ↦ elim (Bool-cases (exists (conflicts (row s.payments.next)) s.payments.rows)) [
    | inl taken ↦ inl (integrity, rw (fits, taken) refl)
    | inr fresh ↦ inr (rw (fits, fresh) refl)
  ]
]

module _ (row : ℕ → Payment) (s : Store) (ids : (i : ℕ) → (row i).id ≡ i) where
  insert_payment-Holds :
      (p : Payment) → (insert_payment row s).0 ≡ ok p → Holds p (books (insert_payment row s).1)
  insert_payment-Holds p h = elim (insert_payment_cases row s) [
    | inl (x, e) ↦ absurd (cc (ap (λ (r : Result Payment × Store). r.0) e, h))
    | inr e ↦
        let here : row s.payments.next ≡ p = cc (ap (λ (r : Result Payment × Store). r.0) e, h) in
        Holds-eq p (ap (λ (r : Result Payment × Store). books r.1) e) (
          subst (λ x. Holds x (record (books s) { payments = insert s.payments row })) here
            (Holds-new row (books s) ids))
  ]

  insert_payment-Moves : ((i : ℕ) → (row i).status ≡ initiated) → Moves (insert_payment row) s
  insert_payment-Moves fresh = record {
    run = elim (insert_payment_cases row s) [
      | inl (x, e) ↦ Evolves-eq done (ap (λ (r : Result Payment × Store). books r.1) e)
      | inr e ↦
          Evolves-eq (next done (open_payment row ids fresh))
            (ap (λ (r : Result Payment × Store). books r.1) e)
    ];
  }

module _ (r : Initiation) (s : Store) where
  drawn : Store
  drawn = (draw s).1

  create_payment-run :
      create_payment r s ≡ insert_payment (new_payment r (draw s).1 (s.uuids 0)) (draw s).1
  unfolding create_payment ◌>>=◌ draw
  create_payment-run = refl

  create_payment-Moves : Moves (create_payment r) s
  create_payment-Moves = record {
    run =
        Evolves-eq
          (Evolves-trans (Evolves-eq done (Frames-draw.at s))
            (insert_payment-Moves (new_payment r (draw s).1 (s.uuids 0)) (draw s).1 (λ i. refl)
              (λ i. refl)).run)
          (ap (λ (x : Result Payment × Store). books x.1) create_payment-run);
  }

  create_payment-Holds :
      (p : Payment) → (create_payment r s).0 ≡ ok p → Holds p (books (create_payment r s).1)
  create_payment-Holds p h = rw create_payment-run (
      insert_payment-Holds (new_payment r (draw s).1 (s.uuids 0)) (draw s).1 (λ i. refl) p
        (rw create_payment-run at h))

module _ (registry : Registry) where
  start_payment-Moves : (r : Initiation) (s : Store) → Moves (start_payment registry r) s
  unfolding start_payment
  start_payment-Moves r s = Moves-bind (create_payment r) _ s (create_payment-Moves r s) (λ p made.
      let held = create_payment-Holds r s p made in
      Moves-after (audit_payment "payment.initiated" r.actor p) _ _
        (Frames-audit "payment.initiated" r.actor p)
        (λ u t e.
          Moves-after (get_adapter registry r.provider) _ t (Frames-get_adapter registry r.provider)
            (λ a t' e'.
              Moves-after (attempt (ask (a.initiate_payment (request_of r p)))) _ t'
                (Frames-attempt _ (Frames-ask _))
                (λ answer t'' e''.
                  handle_answer-Moves r.actor p t'' (Holds-eq p (e'' ∙ e' ∙ e) held) answer))))

  deduplicate-Moves :
      (r : Initiation) (o : Option Payment) (s : Store) → Moves (deduplicate registry r o) s
  unfolding deduplicate
  deduplicate-Moves r none s = start_payment-Moves r s
  deduplicate-Moves r (some x) s =
      Moves-then-pure x (audit_payment "payment.initiation_deduplicated" r.actor x) s
        (Moves-frame _ s (Frames-audit "payment.initiation_deduplicated" r.actor x))

  -- An initiation moves the books by steps of the abstract view.
  pub initiate_payment-Moves : (r : Initiation) (s : Store) → Moves (initiate_payment registry r) s
  unfolding initiate_payment
  initiate_payment-Moves r s =
      Moves-if (str_eq r.idempotency_key "") (start_payment registry r) _ s
        (λ blank. start_payment-Moves r s)
        (λ given.
          Moves-after (gets (λ t. first (has_key r.tenant.id r.idempotency_key) t.payments.rows)) _
            s (Frames-gets _) (λ o t e. deduplicate-Moves r o t))

  learn_reference-Moves :
      (p : Payment) (reference : String) (f : Payment → Action Payment) (s : Store)
      → Holds p (books s)
      → ((q : Payment) (t : Store) → Holds q (books t) → Moves (f q) t)
      → Moves (learn_reference registry p reference >>= f) s
  unfolding set_reference ◌>>=◌
  learn_reference-Moves p reference f s h k =
      by_test (not (str_eq reference "") && str_eq p.provider_reference "")
    where
      by_test : (b : Bool) → Moves ((if b then set_reference p reference else pure p) >>= f) s
      by_test false = k p s h
      by_test true = record {
        run =
            Evolves-trans (set_reference-Moves p reference s).run
              (k (record p { provider_reference = reference }) (set_reference p reference s).1
                (set_reference-Holds p reference s h)).run;
      }

  -- A query moves the books by steps of the abstract view.
  pub query_payment-Moves :
      (p : Payment) (actor : Option ℕ) (s : Store)
      → Holds p (books s)
      → Moves (query_payment registry p actor) s
  unfolding query_payment
  query_payment-Moves p actor s h =
      Moves-after (get_adapter registry p.provider) _ s (Frames-get_adapter registry p.provider)
        (λ a t e.
          Moves-after (ask (a.query_payment p.merchant_reference)) _ t (Frames-ask _)
            (λ result t' e'.
              learn_reference-Moves p result.provider_reference _ t' (Holds-eq p (e' ∙ e) h)
                (λ q t'' held.
                  Moves-after (audit_payment "payment.queried" actor q) _ t''
                    (Frames-audit "payment.queried" actor q)
                    (λ u v e''.
                      apply_outcome-Moves q actor v (Holds-eq q e'' held) result.outcome))))
