-- ===== src/Providers/Models.antt =====
-- apps/providers/models.py: a provider, a channel, and the sandbox provider's own table.
use Prim.Native.String.{◌++◌}
use kusanya.Base.{ℕ, String, Bool, if◌then◌else◌}
use kusanya.Base.Table.{Table}

-- `ProviderOutcome` (apps/providers/base.py)
pub data ProviderOutcome : Type 0 where
  pending successful failed unknown : ProviderOutcome

pub record PaymentProvider : Type 0 where
  pub id : ℕ
  pub code : String
  pub name : String
  pub is_sandbox : Bool

pub record PaymentChannel : Type 0 where
  pub id : ℕ
  pub provider : PaymentProvider
  pub name : String

-- `PaymentProvider.__str__`
unfoldable pub provider_label : PaymentProvider → String
provider_label p = p.name ++ (if p.is_sandbox then " (SANDBOX)" else "")

-- `PaymentChannel.__str__`
unfoldable pub channel_label : PaymentChannel → String
channel_label c = c.name ++ (" (" ++ (c.provider.name ++ ")"))

pub record MockProviderTransaction : Type 0 where
  pub id : ℕ
  pub merchant_reference : String
  pub provider_reference : String
  pub outcome : ProviderOutcome

-- What an adapter may read and write: the sandbox's transactions, and the texts that its
-- `uuid.uuid4().hex[:10].upper()` will give.
pub record Sandbox : Type 0 where
  pub transactions : Table MockProviderTransaction
  pub uuids : ℕ → String
