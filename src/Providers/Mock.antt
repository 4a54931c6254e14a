-- ===== src/Providers/Mock.antt =====
-- apps/providers/mock.py: the sandbox adapter, and its entry in apps/providers/registry.py. The HMAC
-- and `json.loads` are the library's and parameters.
use Prim.Native.String.{◌++◌}
use kusanya.Base.{◌+◌, String, Option, none, some, [], ◌∷◌, str_eq, if◌then◌else◌}
use kusanya.Base.Int.{ℤ}
use kusanya.Base.Table.{insert, first}
use kusanya.Core.Result.{
  Result, ok, err, key_error, value_error, provider_error, provider_timeout, invalid_signature,
}
use kusanya.Core.Signing.{verify}
use kusanya.Providers.Models.{
  ProviderOutcome, successful, failed, pending, unknown, Sandbox, MockProviderTransaction,
}
use kusanya.Providers.Interface.{
  Metadata, ProviderResult, ProviderCallbackResult, InitiateRequest, ProviderCall,
  PaymentProviderAdapter, Registry,
}

abbrev pub default_callback_secret : String
default_callback_secret = "mock-provider-callback-secret"

-- `d.get(k, default)`
unfoldable pub get_or : Metadata → String → String → String
get_or [] k d = d
get_or ((j, v) ∷ m) k d = if str_eq j k then v else get_or m k d

-- `d[k]`
unfoldable pub get : Metadata → String → Option String
get [] k = none
get ((j, v) ∷ m) k = if str_eq j k then some v else get m k

-- What happens at the simulated provider: a timeout hides a success.
unfoldable pub actual_outcome : String → ProviderOutcome
actual_outcome hint =
    if str_eq hint "successful"
    then successful
    else if str_eq hint "failed"
    then failed
    else if str_eq hint "pending"
    then pending
    else if str_eq hint "timeout"
    then successful
    else successful

abbrev pub answer : ProviderOutcome → String → ProviderResult
answer o reference = record { outcome = o; provider_reference = reference }

-- `initiate_payment`: the transaction is recorded before the timeout is simulated.
unfoldable pub initiate_payment : InitiateRequest → ProviderCall ProviderResult
unfolding get_or actual_outcome
initiate_payment r w =
    let hint = get_or r.metadata "mock_outcome" "successful" in
    let reference = "MOCK-" ++ w.uuids 0 in
    let w' : Sandbox = record {
      transactions = insert w.transactions (λ id. record {
        id = id;
        merchant_reference = r.merchant_reference;
        provider_reference = reference;
        outcome = actual_outcome hint;
      });
      uuids = λ n. w.uuids (n + 1);
    } in
    (
      (if str_eq hint "timeout"
          then err (
              provider_timeout
                ("Simulated provider timeout for merchant_reference=" ++ r.merchant_reference))
          else ok (answer (actual_outcome hint) reference)),
      w',
    )

abbrev pub found : Option MockProviderTransaction → ProviderResult
found none = answer unknown ""
found (some t) = answer t.outcome t.provider_reference

-- `query_payment`, by our own reference.
unfoldable pub query_payment : String → ProviderCall ProviderResult
query_payment merchant_reference w = (
  ok (
      found (
        first (λ (t : MockProviderTransaction). str_eq t.merchant_reference merchant_reference)
          w.transactions.rows)),
  w,
)

abbrev pub seen : String → Option MockProviderTransaction → ProviderResult
seen reference none = answer unknown ""
seen reference (some t) = answer t.outcome reference

-- `reconcile`, by the provider's reference.
unfoldable pub reconcile : String → ProviderCall ProviderResult
reconcile provider_reference w = (
  ok (
      seen provider_reference (
        first (λ (t : MockProviderTransaction). str_eq t.provider_reference provider_reference)
          w.transactions.rows)),
  w,
)

-- `refund` and `reverse` are always confirmed.
unfoldable pub refund : String → ℤ → ProviderCall ProviderResult
refund provider_reference amount w = (ok (answer successful provider_reference), w)

unfoldable pub reverse : String → ProviderCall ProviderResult
reverse provider_reference w = (ok (answer successful provider_reference), w)

-- `ProviderOutcome(text)`
unfoldable pub outcome_of : String → Result ProviderOutcome
outcome_of t =
    if str_eq t "pending"
    then ok pending
    else if str_eq t "successful"
    then ok successful
    else if str_eq t "failed"
    then ok failed
    else if str_eq t "unknown"
    then ok unknown
    else err value_error

abbrev assemble : Result ProviderOutcome → String → String → Result ProviderCallbackResult
assemble (err e) event_id reference = err e
assemble (ok o) event_id reference =
    ok (record { external_event_id = event_id; provider_reference = reference; outcome = o })

-- The three reads of the payload, in their order.
unfoldable pub read_payload : Metadata → Result ProviderCallbackResult
unfolding get outcome_of
read_payload m = elim (get m "event_id") [
  | none ↦ err key_error
  | some event_id ↦ elim (get m "provider_reference") [
    | none ↦ err key_error
    | some reference ↦ elim (get m "outcome") [
      | none ↦ err key_error
      | some o ↦ assemble (outcome_of o) event_id reference
    ]
  ]
]

module _ (sign : String → String → String) (loads : String → Option Metadata) where
  -- `process_callback`: nothing is parsed before the signature has been verified.
  unfoldable pub process_callback : String → Metadata → ProviderCall ProviderCallbackResult
  unfolding get_or verify read_payload
  process_callback raw headers w = (
    (if verify sign default_callback_secret raw (get_or headers "X-Mock-Signature" "")
        then elim (loads raw) [
          | none ↦ err (provider_error "Malformed mock callback payload")
          | some m ↦ read_payload m
        ]
        else err (invalid_signature "Mock provider callback signature did not verify.")),
    w,
  )

  abbrev pub adapter : PaymentProviderAdapter
  adapter = record {
    initiate_payment = initiate_payment;
    query_payment = query_payment;
    process_callback = process_callback;
    refund = refund;
    reverse = reverse;
    reconcile = reconcile;
  }

  -- `_ADAPTER_CLASSES`
  unfoldable pub registry : Registry
  registry code = if str_eq code "mock" then some adapter else none
