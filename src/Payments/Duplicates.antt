-- ===== src/Payments/Duplicates.antt =====
-- A callback that is delivered again.
use kusanya.Base.{ℕ, true, String, Option, none, some, ◌≡◌, refl, arith, ◌∙◌}
use kusanya.Base.Int.{ℤ, zero_+ℤ}
use kusanya.Base.Table.{sum_of}
use kusanya.Core.Result.{Result, ok, err}
use kusanya.Providers.Models.{PaymentProvider, Sandbox}
use kusanya.Providers.Interface.{Registry, Metadata, PaymentProviderAdapter, ProviderCallbackResult}
use kusanya.Revenue.Models.{RevenueEvent}
use kusanya.Revenue.Services.{record_payment_duplicate}
use kusanya.Payments.Models.{Payment, PaymentCallbackEvent, CallbackOutcome}
use kusanya.Payments.Callbacks.{
  is_taken, audit_event, log_duplicate, record_callback, handle_callback, process_callback,
  charge_nothing, create_event,
}
use kusanya.Payments.Services.{get_adapter, attempt}
use kusanya.Store.{Store}
use kusanya.Store.Action.{Action, pure, gets, continue, ask, ◌>>=◌}

-- What the fees add up to.
abbrev pub fee_total : Store → ℤ
fee_total s = sum_of (λ (e : RevenueEvent). e.amount) s.revenue.rows

-- The parts of the store that a repeated callback leaves as they are.
pub record IsSameMoney (s t : Store) : Type 0 where
  pub payments : t.payments ≡ s.payments
  pub ledger : t.ledger ≡ s.ledger
  pub fees : fee_total t ≡ fee_total s
  pub allocations : t.allocations ≡ s.allocations
  pub deliveries : t.deliveries ≡ s.deliveries

IsSameMoney-refl : (s : Store) → IsSameMoney s s
IsSameMoney-refl s = record {
  payments = refl;
  ledger = refl;
  fees = refl;
  allocations = refl;
  deliveries = refl;
}

IsSameMoney-trans : {s t u : Store} → IsSameMoney s t → IsSameMoney t u → IsSameMoney s u
IsSameMoney-trans h k = record {
  payments = k.payments ∙ h.payments;
  ledger = k.ledger ∙ h.ledger;
  fees = k.fees ∙ h.fees;
  allocations = k.allocations ∙ h.allocations;
  deliveries = k.deliveries ∙ h.deliveries;
}

record Same {A : Type 0} (m : Action A) : Type 0 where
  at : (s : Store) → IsSameMoney s (m s).1

module _ {A : Type 0} where
  Same-pure : (a : A) → Same (pure a)
  unfolding pure
  Same-pure a = record { at = IsSameMoney-refl }

  Same-gets : (f : Store → A) → Same (gets f)
  unfolding gets
  Same-gets f = record { at = IsSameMoney-refl }

module _ {A B : Type 0} where
  Same-bind : (m : Action A) (f : A → Action B) → Same m → ((a : A) → Same (f a)) → Same (m >>= f)
  unfolding ◌>>=◌
  Same-bind m f h k = record { at = λ s. ended s (m s).0 (m s).1 (h.at s) }
    where
      ended :
          (s : Store) (r : Result A) (u : Store)
          → IsSameMoney s u
          → IsSameMoney s (continue r f u).1
      ended s (ok a) u c = IsSameMoney-trans c ((k a).at u)
      ended s (err e) u c = c

Same-audit :
    (action : String) (actor tenant : Option ℕ) (e : PaymentCallbackEvent)
    → Same (audit_event action actor tenant e)
unfolding audit_event
Same-audit action actor tenant e = record {
  at = λ s. record {
    payments = refl;
    ledger = refl;
    fees = refl;
    allocations = refl;
    deliveries = refl;
  };
}

Same-create :
    (provider : PaymentProvider) (event_id : String) (p : Option ℕ) (o : CallbackOutcome)
    → Same (create_event provider event_id p o)
unfolding create_event
Same-create provider event_id p o = record {
  at = λ s. record {
    payments = ground arith;
    ledger = ground arith;
    fees = ground arith;
    allocations = ground arith;
    deliveries = ground arith;
  };
}

Same-charge_nothing : (p : Option Payment) → Same (charge_nothing p)
unfolding charge_nothing ◌>>=◌ record_payment_duplicate sum_of
Same-charge_nothing none = Same-pure tt
Same-charge_nothing (some p) = record {
  at = λ s. record {
    payments = refl;
    ledger = refl;
    fees = zero_+ℤ (fee_total s);
    allocations = refl;
    deliveries = refl;
  };
}

Same-log_duplicate :
    (provider : PaymentProvider) (parsed : ProviderCallbackResult) (actor : Option ℕ)
    → Same (log_duplicate provider parsed actor)
unfolding log_duplicate
Same-log_duplicate provider parsed actor = Same-bind _ _ (Same-gets _) (λ original.
    Same-bind _ _ (Same-gets _) (λ paid. Same-bind _ _ (Same-create provider "" _ _) (λ dup.
      Same-bind _ _ (Same-audit _ actor _ dup)
        (λ x. Same-bind _ _ (Same-charge_nothing paid) (λ y. Same-pure dup)))))

asked : (s : Store) (w : Sandbox) → IsSameMoney s (record s { sandbox = w })
asked s w = record {
  payments = refl;
  ledger = refl;
  fees = refl;
  allocations = refl;
  deliveries = refl;
}

-- A callback of an event that was already recorded, with whatever outcome and reference, changes no
-- payment, posts no ledger entry, leaves the fees' total and the bills' allocations as they are, and
-- sends no webhook.
pub process_callback-repeated :
    (registry : Registry) (provider : PaymentProvider) (adapter : PaymentProviderAdapter)
    (raw : String) (headers : Metadata) (actor : Option ℕ) (s : Store)
    (parsed : ProviderCallbackResult)
    → registry provider.code ≡ some adapter
    → (adapter.process_callback raw headers s.sandbox).0 ≡ ok parsed
    → is_taken provider.id parsed.external_event_id s.callback_events.rows ≡ true
    → IsSameMoney s (process_callback registry provider raw headers actor s).1
unfolding process_callback get_adapter attempt ask handle_callback record_callback ◌>>=◌
process_callback-repeated registry provider adapter raw headers actor s parsed known answered
      taken =
    rw (known, answered, taken)
      (IsSameMoney-trans (asked s (adapter.process_callback raw headers s.sandbox).1) (
        (Same-log_duplicate provider parsed actor).at
          (record s { sandbox = (adapter.process_callback raw headers s.sandbox).1 })))
