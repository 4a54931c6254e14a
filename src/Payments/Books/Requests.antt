-- ===== src/Payments/Books/Requests.antt =====
-- Every request, and so every sequence of requests, moves the books by steps of the abstract view.
use kusanya.Base.{ℕ, Option, none, some, ◌≡◌, refl, List, [], ◌∷◌}
use kusanya.Base.Table.{first}
use kusanya.Core.Result.{Result, ok, err, does_not_exist}
use kusanya.Providers.Interface.{Registry}
use kusanya.Payments.Models.{Payment}
use kusanya.Payments.Status.{has_id}
use kusanya.Payments.Services.{query_payment}
use kusanya.Payments.Refunds.{refund_payment, reverse_payment}
use kusanya.Payments.Requests.{
  Request, initiate, query, callback, refund, reverse, load, perform, serve, serve_all,
}
use kusanya.Payments.Books.{books, Evolves, Evolves-trans, done, Holds}
use kusanya.Payments.Books.Frames.{Frames-pure}
use kusanya.Payments.Books.Keys.{KeyedBooks, first-has_id, Evolves-IsKeyed}
use kusanya.Payments.Books.Moves.{Moves, Moves-frame, Moves-bind}
use kusanya.Payments.Books.Refunds.{refund_payment-Moves, reverse_payment-Moves}
use kusanya.Payments.Books.Refines.{initiate_payment-Moves, query_payment-Moves}
use kusanya.Payments.Books.Callbacks.{process_callback-Moves}
use kusanya.Store.{Store}
use kusanya.Store.Action.{Action, ⊤, pure, or_raise, atomic, rollback, ◌>>=◌, ◌>>◌}

then-tt-Moves : {A : Type 0} (m : Action A) (s : Store) → Moves m s → Moves (m >> pure tt) s
then-tt-Moves m s h = Moves-bind m _ s h (λ a e. Moves-frame _ _ (Frames-pure tt))

-- The payment that a request loads stands in the table as the request sees it.
load-Moves :
    {B : Type 0} (i : ℕ) (f : Payment → Action B) (s : Store)
    → KeyedBooks (books s)
    → ((p : Payment) → Holds p (books s) → Moves (f p) s)
    → Moves (load i >>= f) s
unfolding load ◌>>=◌
load-Moves i f s k h = record { run = found (first (has_id i) s.payments.rows) refl }
  where
    found :
        (o : Option Payment)
        → first (has_id i) s.payments.rows ≡ o
        → Evolves (books s) (books ((or_raise o does_not_exist >>= f) s).1)
    found none e = done
    found (some p) e =
        (h p (p, first-has_id (has_id i) s.payments.next s.payments.rows k e, refl)).run

module _ (registry : Registry) where
  perform-Moves : (r : Request) (s : Store) → KeyedBooks (books s) → Moves (perform registry r) s
  unfolding perform
  perform-Moves (initiate r) s k = then-tt-Moves _ s (initiate_payment-Moves registry r s)
  perform-Moves (query i actor) s k =
      load-Moves i (λ p. query_payment registry p actor >> pure tt) s k
        (λ p held. then-tt-Moves _ s (query_payment-Moves registry p actor s held))
  perform-Moves (callback provider raw headers) s k =
      then-tt-Moves _ s (process_callback-Moves provider none registry raw headers s k)
  perform-Moves (refund i amount actor) s k =
      load-Moves i (λ p. refund_payment registry p amount actor >> pure tt) s k
        (λ p held. then-tt-Moves _ s (refund_payment-Moves registry p actor s held amount))
  perform-Moves (reverse i actor) s k =
      load-Moves i (λ p. reverse_payment registry p actor >> pure tt) s k
        (λ p held. then-tt-Moves _ s (reverse_payment-Moves registry p actor s held))

  -- A request moves the books by steps of the abstract view; one that raises leaves them.
  pub serve-Evolves :
      (r : Request) (s : Store)
      → KeyedBooks (books s)
      → Evolves (books s) (books (serve registry r s))
  unfolding serve atomic
  serve-Evolves r s k = rolled ((perform registry r s).0) (perform-Moves r s k).run
    where
      rolled :
          (o : Result ⊤)
          → Evolves (books s) (books (perform registry r s).1)
          → Evolves (books s) (books (rollback s o (perform registry r s).1).1)
      rolled (ok a) h = h
      rolled (err e) h = done

  -- From a store with unique keys, whatever the requests, the registry and the answers of its
  -- adapters, what happens to payments, ledger and revenue is a sequence of abstract steps.
  pub serve_all-Evolves :
      (rs : List Request) (s : Store)
      → KeyedBooks (books s)
      → Evolves (books s) (books (serve_all registry rs s))
  unfolding serve_all
  serve_all-Evolves [] s k = done
  serve_all-Evolves (r ∷ rs) s k =
      let step = serve-Evolves r s k in
      Evolves-trans step (serve_all-Evolves rs (serve registry r s) (Evolves-IsKeyed step k))
