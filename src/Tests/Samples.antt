-- ===== src/Tests/Samples.antt =====
-- A small store, with an institution, a payment and what belongs to them.
use kusanya.Base.{◌+◌, ◌/◌, ℕ, String, true, Option, none, some, List, [], ◌∷◌}
use kusanya.Base.Int.{ℤ, pos, negsuc}
use kusanya.Base.Table.{empty}
use kusanya.Core.Result.{err, provider_timeout}
use kusanya.Tenants.Models.{Tenant, FeeRefundPolicy}
use kusanya.ControlNumbers.Models.{ControlNumber, ControlNumberScope, ControlNumberStatus, Owner}
use kusanya.Customers.Models.{Customer, CustomerAccount}
use kusanya.Providers.Models.{PaymentProvider}
use kusanya.Providers.Interface.{Metadata, Registry, PaymentProviderAdapter}
use kusanya.Providers.Mock.{registry, adapter}
use kusanya.Payments.Models.{Payment, PaymentCallbackEvent, CallbackOutcome, pending, successful}
use kusanya.Payments.Services.{Initiation}
use kusanya.Payments.Requests.{Request, initiate, query, refund}
use kusanya.Store.{Store}
use kusanya.Settlement.Services.{Period}
use kusanya.Payments.Models.{unknown}
use kusanya.Providers.Models.{ProviderOutcome}
use kusanya.Billing.Services.{BillRequest}
use kusanya.ControlNumbers.Services.{Issue}
use kusanya.Webhooks.Models.{WebhookEndpoint}
use kusanya.Billing.Models.{Bill, BillStatus}

abbrev pub sign_text : String → String → String
sign_text secret message = message

-- Every text is the callback of one event.
abbrev pub parse : String → Option Metadata
parse raw =
    some (("event_id", "E1") ∷ ("provider_reference", "MOCK-A1") ∷ ("outcome", "successful") ∷ [])

abbrev pub mock_registry : Registry
mock_registry = registry sign_text parse

abbrev pub school : Tenant
school = record {
  id = 1;
  name = "School";
  default_currency = "TZS";
  fee_refund_policy = FeeRefundPolicy.clawback;
}

abbrev pub parent : Customer
parent = record {
  id = 1;
  full_name = "Asha";
  email = "asha@example.com";
  phone_number = "";
  tenant = school;
  external_reference = "";
  is_active = true;
}

abbrev pub pupil : CustomerAccount
pupil = record {
  id = 1;
  customer = parent;
  name = "Fees";
  tenant = school;
  external_reference = "";
  is_active = true;
}

abbrev pub school_number : ControlNumber
school_number = record {
  id = 1;
  tenant = school;
  value = "990000000017";
  scope = ControlNumberScope.persistent;
  status = ControlNumberStatus.active;
  owner = Owner.account pupil;
  expires_at = none;
  cancelled_at = none;
  created_by = none;
}

abbrev pub mock_provider : PaymentProvider
mock_provider = record { id = 1; code = "mock"; name = "Mock"; is_sandbox = true }

abbrev pub texts : ℕ → String
texts n = "A1"

-- Ten-thousandths to hundredths, half up, of amounts that are not negative.
abbrev pub half_up : ℤ → ℤ
half_up (pos n) = pos ((n + 50) / 100)
half_up (negsuc n) = pos 0

abbrev pub empty_store : Store
empty_store = record {
  now = 100;
  date = "20260101";
  short_date = "260101";
  uuids = texts;
  format_map = λ template context. some template;
  round_column = half_up;
  sandbox = record { transactions = empty; uuids = texts };
  bills = empty;
  items = empty;
  allocations = empty;
  control_numbers = empty;
  payments = empty;
  callback_events = empty;
  ledger = empty;
  revenue = empty;
  receipts = empty;
  templates = [];
  notifications = empty;
  endpoints = [];
  deliveries = empty;
  batches = empty;
  runs = empty;
  exceptions = empty;
  audit = [];
}

abbrev pub first_payment : Payment
first_payment = record {
  id = 0;
  tenant = school;
  control_number = school_number;
  provider = mock_provider;
  channel = none;
  status = pending;
  amount = pos 50000;
  currency = "TZS";
  payer_reference = "";
  merchant_reference = "PAY-A1";
  provider_reference = "MOCK-A1";
  idempotency_key = "k1";
  initiated_at = 90;
  completed_at = none;
  failure_reason = "";
  settlement_batch = none;
}

abbrev pub settled_payment : Payment
settled_payment = record first_payment { status = successful; completed_at = some 95 }

abbrev pub one_payment : Store
one_payment = record empty_store { payments = record { next = 1; rows = first_payment ∷ [] } }

abbrev pub order : Initiation
order = record {
  tenant = school;
  control_number = school_number;
  provider = mock_provider;
  channel = none;
  amount = pos 50000;
  payer_reference = "";
  idempotency_key = "k2";
  actor = none;
  metadata = [];
}

abbrev pub day : List Request
day = initiate order ∷ query 0 none ∷ refund 0 none none ∷ []

abbrev pub settled_store : Store
settled_store = record empty_store { payments = record { next = 1; rows = settled_payment ∷ [] } }

abbrev pub january : Period
january = record { tenant = school; provider = mock_provider; period_start = 90; period_end = 99 }

abbrev pub number_request : Issue
number_request = record {
  tenant = school;
  owner = Owner.account pupil;
  actor = none;
  expires_at = none;
}

abbrev pub endpoint : WebhookEndpoint
endpoint = record {
  id = 0;
  tenant = school;
  url = "https://example.com/hook";
  secret = "s";
  is_active = true;
  subscribed_events = [];
}

abbrev pub first_delivery : PaymentCallbackEvent
first_delivery = record {
  id = 0;
  provider = mock_provider;
  external_event_id = "E1";
  payment = some 0;
  outcome = CallbackOutcome.processed;
}

abbrev pub delivered_store : Store
delivered_store = record settled_store {
  callback_events = record { next = 1; rows = first_delivery ∷ [] };
}

abbrev pub school_bill : Bill
school_bill = record {
  id = 0;
  tenant = school;
  customer_account = pupil;
  bill_number = "BILL-1";
  status = BillStatus.active;
  currency = "TZS";
  total_amount = pos 80000;
  due_date = none;
  issued_at = some 80;
  cancelled_at = none;
  external_reference = "";
}

abbrev pub billed_store : Store
billed_store = record one_payment { bills = record { next = 1; rows = school_bill ∷ [] } }

-- An adapter whose provider never answers in time.
abbrev pub late_adapter : PaymentProviderAdapter
late_adapter = record (adapter sign_text parse) {
  initiate_payment = λ req w. (err (provider_timeout "late"), w);
}

abbrev pub late_registry : Registry
late_registry code = some late_adapter

abbrev pub invoice : BillRequest
invoice = record {
  tenant = school;
  customer_account = pupil;
  items = record { description = "Fees"; quantity = pos 125; unit_amount = pos 33333 } ∷ [];
  external_reference = "INV-1";
  due_date = none;
  actor = none;
}

abbrev pub lost_payment : Payment
lost_payment = record first_payment { status = unknown }

-- The provider's side, where the payment is still pending.
abbrev pub pending_store : Store
pending_store = record one_payment {
  sandbox = record {
    transactions = record {
      next = 1;
      rows =
          record {
            id = 0;
            merchant_reference = "PAY-A1";
            provider_reference = "MOCK-A1";
            outcome = ProviderOutcome.pending;
          }
          ∷ [];
    };
    uuids = texts;
  };
}
