-- ===== src/Payments/Books/Moves.antt =====
-- Actions that move the books by steps of the abstract view: the rules, and the status changes.
use kusanya.Base.{
  ℕ, String, Bool, true, false, Option, none, ◌≡◌, [], refl, sym, subst, arith, Bool-cases, inl,
  inr, ◌==◌, if◌then◌else◌,
}
use kusanya.Base.Table.{insert}
use kusanya.Base.Int.{pos}
use kusanya.Core.Result.{Result, ok, err, validation}
use kusanya.Core.Objects.{payment}
use kusanya.Notifications.Models.{NotificationEventType}
use kusanya.Revenue.Models.{RevenueEvent, payment_failed}
use kusanya.Payments.Models.{
  Payment, PaymentStatus, tag, status_in, allowed_transitions, enter_status, store_status,
  initiated, pending, successful, failed, unknown, expired, reversed, refunded,
}
use kusanya.Payments.Status.{transition_to, save_fields}
use kusanya.Payments.Outcome.{after_successful, after_failed, after_pending}
use kusanya.Payments.Messages.{notify, dispatch}
use kusanya.Payments.Books.{
  Books, books, Evolves, done, next, Evolves-trans, Holds, charge, write_row, has_succeeded, move,
  note,
}
use kusanya.Payments.Books.Frames.{
  Frames, frame_rules, Frames-settle_success, Frames-pure, Frames-notify, Frames-dispatch,
  Frames-audit,
}
use kusanya.Store.{Store}
use kusanya.Store.Action.{Action, pure, continue, ◌>>=◌, ◌>>◌}

-- Run from this store, the action moves the books by steps, whether it returns or raises.
pub record Moves {A : Type 0} (m : Action A) (s : Store) : Type 0 where
  pub run : Evolves (books s) (books (m s).1)

pub Holds-eq : (p : Payment) {b c : Books} → c ≡ b → Holds p b → Holds p c
Holds-eq p e h = subst (λ (x : Books). Holds p x) (sym e) h

pub Evolves-eq : {b c d : Books} → Evolves b c → d ≡ c → Evolves b d
Evolves-eq {b} r e = subst (λ x. Evolves b x) (sym e) r

pub Moves-frame : {A : Type 0} (m : Action A) (s : Store) → Frames m → Moves m s
Moves-frame m s f = record { run = Evolves-eq done (f.at s) }

module _ {A B : Type 0} where
  continue-Moves :
      (f : A → Action B) (b : Books) (r : Result A) (s : Store)
      → Evolves b (books s)
      → ((a : A) → r ≡ ok a → Moves (f a) s)
      → Evolves b (books (continue r f s).1)
  continue-Moves f b (ok a) s h k = Evolves-trans h (k a refl).run
  continue-Moves f b (err e) s h k = h

  pub Moves-bind :
      (m : Action A) (f : A → Action B) (s : Store)
      → Moves m s
      → ((a : A) → (m s).0 ≡ ok a → Moves (f a) (m s).1)
      → Moves (m >>= f) s
  unfolding ◌>>=◌
  Moves-bind m f s h k = record { run = continue-Moves f (books s) (m s).0 (m s).1 h.run k }

  -- A call that leaves the books alone, and then the rest.
  pub Moves-after :
      (m : Action A) (f : A → Action B) (s : Store)
      → Frames m
      → ((a : A) (t : Store) → books t ≡ books s → Moves (f a) t)
      → Moves (m >>= f) s
  Moves-after m f s fm k = Moves-bind m f s (Moves-frame m s fm) (λ a e. k a (m s).1 (fm.at s))

-- A success posts its three ledger entries and its one fee, whatever becomes of the bill, the
-- receipt and the messages after that.
pub books-after_successful :
    (actor : Option ℕ) (p : Payment) (s : Store)
    → books (after_successful actor p s).1 ≡ charge p (books s)
unfolding after_successful ◌>>=◌
books-after_successful actor p s = (Frames-settle_success p).at _

failure_event : Payment → ℕ → RevenueEvent
failure_event p id = record {
  id = id;
  tenant = p.tenant;
  event_type = payment_failed;
  amount = pos 0;
  currency = p.currency;
  source = payment p.id;
  ledger_entry = none;
}

books-after_failed :
    (actor : Option ℕ) (p : Payment) (s : Store)
    → books (after_failed actor p s).1
      ≡ record (books s) { revenue = insert s.revenue (failure_event p) }
unfolding after_failed ◌>>=◌ failure_event
books-after_failed actor p s = told.at _
  where
    told : Frames (notify p NotificationEventType.payment_failed [] >> dispatch p "payment.failed")
    told = search (frame_rules, Frames-notify, Frames-dispatch)

pub after_failed-Moves :
    (actor : Option ℕ) (p : Payment) (s : Store) → Moves (after_failed actor p) s
after_failed-Moves actor p s = record {
  run =
      Evolves-eq
        (next done
          (note (failure_event p) s.ledger (λ i. unfold failure_event in ground arith) [] refl))
        (books-after_failed actor p s);
}

pub after_pending-Frames : (actor : Option ℕ) (p : Payment) → Frames (after_pending actor p)
unfolding after_pending
after_pending-Frames actor p = search (frame_rules, Frames-audit, Frames-notify, Frames-dispatch)

-- A guard that lets `FAILED`, `PENDING` or `UNKNOWN` through was left by no success.
pub from_unsettled :
    (st : PaymentStatus)
    → ((status_in failed (allowed_transitions st) ≡ true) → has_succeeded st ≡ false)
      × ((status_in pending (allowed_transitions st) ≡ true) → has_succeeded st ≡ false)
      × ((status_in unknown (allowed_transitions st) ≡ true) → has_succeeded st ≡ false)
unfolding allowed_transitions
from_unsettled initiated = (λ h. refl, λ h. refl, λ h. refl)
from_unsettled pending = (λ h. refl, λ h. refl, λ h. refl)
from_unsettled successful = (λ h. cc, λ h. cc, λ h. cc)
from_unsettled failed = (λ h. refl, λ h. refl, λ h. refl)
from_unsettled unknown = (λ h. refl, λ h. refl, λ h. refl)
from_unsettled expired = (λ h. refl, λ h. refl, λ h. refl)
from_unsettled reversed = (λ h. cc, λ h. cc, λ h. cc)
from_unsettled refunded = (λ h. cc, λ h. cc, λ h. cc)

module _ (p : Payment) (reason : String) (s : Store) (st : PaymentStatus) where
  abbrev entered : Payment
  entered = enter_status s.now st reason p

  -- A transition writes one row, or raises and writes nothing.
  pub transition_to-allowed :
      status_in st (allowed_transitions p.status) ≡ true
      → (m : (transition_to p st reason s).0 ≡ ok entered) × (books (transition_to p st reason s).1
          ≡ write_row (store_status entered) p.id (books s))
  unfolding transition_to
  transition_to-allowed h = rw h (refl, refl)

  pub transition_to-run :
      status_in st (allowed_transitions p.status) ≡ true
      → transition_to p st reason s ≡ (ok entered, (save_fields p.id (store_status entered) s).1)
  unfolding transition_to
  transition_to-run h = rw h

  pub transition_to-refused :
      status_in st (allowed_transitions p.status) ≡ false
      → transition_to p st reason s ≡ (err validation, s)
  unfolding transition_to
  transition_to-refused h = rw h

  -- A status change that is no success.
  pub transition_to-Moves :
      Holds p (books s)
      → (status_in st (allowed_transitions p.status) ≡ true
          → has_succeeded st ≡ has_succeeded p.status)
      → Moves (transition_to p st reason) s
  unfolding enter_status
  transition_to-Moves h same = elim (Bool-cases (status_in st (allowed_transitions p.status))) [
    | inl go ↦ record {
      run =
          Evolves-eq (next done (move p entered h refl go (same go))) (transition_to-allowed go).1;
    }
    | inr stop ↦ record { run = rw (transition_to-refused stop) done }
  ]

pub Moves-if :
    {A : Type 0} (b : Bool) (m n : Action A) (s : Store)
    → (b ≡ true → Moves m s)
    → (b ≡ false → Moves n s)
    → Moves (if b then m else n) s
Moves-if true m n s hm hn = hm refl
Moves-if false m n s hm hn = hn refl

pub continue-pure :
    {A B : Type 0} (q : B) (r : Result A) (s : Store) → (continue r (λ _. pure q) s).1 ≡ s
unfolding pure
continue-pure q (ok a) s = refl
continue-pure q (err e) s = refl

pub then-pure : {A B : Type 0} (q : B) (m : Action A) (s : Store) → ((m >> pure q) s).1 ≡ (m s).1
unfolding ◌>>=◌
then-pure q m s = continue-pure q (m s).0 (m s).1

pub if_false : {A : Type 0} {b : Bool} (x y : A) → b ≡ false → (if b then x else y) ≡ y
if_false x y e = rw e

pub not_yet :
    (st : PaymentStatus)
    → status_in successful (allowed_transitions st) ≡ true
    → (tag st == tag successful) ≡ false
unfolding allowed_transitions
not_yet initiated h = refl
not_yet successful h = cc
not_yet st h = ground arith

-- A call that moves the books and answers with the payment it was given.
pub Moves-then-pure :
    {A : Type 0} (q : Payment) (m : Action A) (s : Store) → Moves m s → Moves (m >> pure q) s
Moves-then-pure q m s h = Moves-bind m _ s h (λ a e. Moves-frame (pure q) _ (Frames-pure q))
