-- ===== src/Payments/Unresolved.antt =====
-- A payment in UNKNOWN whose provider says that it is still pending.
use kusanya.Base.{ℕ, Option, some, ◌≡◌, refl, ◌&&◌, not, str_eq, Bool-cases, inl, inr}
use kusanya.Core.Result.{ok, err, validation}
use kusanya.Providers.Models.{ProviderOutcome}
use kusanya.Providers.Interface.{Registry, PaymentProviderAdapter, ProviderResult}
use kusanya.Payments.Models.{Payment, unknown, allowed_transitions}
use kusanya.Payments.Status.{transition_to, set_reference}
use kusanya.Payments.Services.{get_adapter, query_payment}
use kusanya.Payments.Outcome.{apply_outcome, apply_status, audit_payment, outcome_to_status}
use kusanya.Store.{Store}
use kusanya.Store.Action.{ask, record_audit_event, ◌>>=◌}

-- The query of a payment in UNKNOWN raises `ValidationError` if the provider answers PENDING: the
-- status is mapped to one that an unknown payment may not take.
pub query_payment-pending :
    (registry : Registry) (p : Payment) (actor : Option ℕ) (s : Store)
    (adapter : PaymentProviderAdapter) (result : ProviderResult)
    → registry p.provider.code ≡ some adapter
    → (adapter.query_payment p.merchant_reference s.sandbox).0 ≡ ok result
    → result.outcome ≡ ProviderOutcome.pending
    → p.status ≡ unknown
    → (query_payment registry p actor s).0 ≡ err validation
unfolding query_payment get_adapter ask set_reference audit_payment record_audit_event apply_outcome
    outcome_to_status apply_status transition_to allowed_transitions ◌>>=◌
query_payment-pending registry p actor s adapter result known answered still lost =
    elim (Bool-cases
      (not (str_eq result.provider_reference "") && str_eq p.provider_reference "")) [
        | inl e ↦ rw (known, answered, e, still, lost) refl
        | inr e ↦ rw (known, answered, e, still, lost) refl
      ]
