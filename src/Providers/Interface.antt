-- ===== src/Providers/Interface.antt =====
-- apps/providers/base.py: the interface that an adapter fills. An adapter acts on the provider's
-- side (`Sandbox`) alone, and returns a result or raises.
use kusanya.Base.{String, Option, List}
use kusanya.Base.Int.{ℤ}
use kusanya.Core.Result.{Result}
use kusanya.Providers.Models.{ProviderOutcome, Sandbox}

abbrev pub Metadata : Type 0
Metadata = List (String × String)

pub record ProviderResult : Type 0 where
  pub outcome : ProviderOutcome
  pub provider_reference : String

pub record ProviderCallbackResult : Type 0 where
  pub external_event_id : String
  pub provider_reference : String
  pub outcome : ProviderOutcome

pub record InitiateRequest : Type 0 where
  pub amount : ℤ
  pub currency : String
  pub control_number : String
  pub payer_reference : String
  pub merchant_reference : String
  pub metadata : Metadata

abbrev pub ProviderCall : Type 0 → Type 0
ProviderCall A = Sandbox → Result A × Sandbox

pub record PaymentProviderAdapter : Type 0 where
  pub initiate_payment : InitiateRequest → ProviderCall ProviderResult
  pub query_payment : String → ProviderCall ProviderResult
  pub process_callback : String → Metadata → ProviderCall ProviderCallbackResult
  pub refund : String → ℤ → ProviderCall ProviderResult
  pub reverse : String → ProviderCall ProviderResult
  pub reconcile : String → ProviderCall ProviderResult

-- The wiring of apps/providers/registry.py: which adapter serves a provider code.
abbrev pub Registry : Type 0
Registry = String → Option PaymentProviderAdapter
