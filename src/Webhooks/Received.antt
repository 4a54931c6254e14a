-- ===== src/Webhooks/Received.antt =====
-- What a receiver of a webhook checks, as docs/WEBHOOK_ARCHITECTURE.md has it: the header without
-- its scheme, against the signature of the timestamp and the body with its own copy of the secret.
use kusanya.Base.{
  ℕ, String, Bool, true, ◌≡◌, ◌≢◌, arith, str_eq, eq_iff, refl, subst, sym, Bool-cases, inl, inr,
}
use kusanya.Base.Text.{drop_chars, drop_chars-append}
use Prim.Native.String.{◌++◌}
use kusanya.Core.Signing.{verify}
use kusanya.Webhooks.Models.{WebhookDelivery}
use kusanya.Webhooks.Signing.{canonical_body, build_signature, verify_signature}
use kusanya.Webhooks.Delivery.{HttpRequest, Wire, build_request}

-- The check of a receiver that holds the secret.
abbrev pub is_accepted : Wire → String → HttpRequest → Bool
is_accepted wire secret r =
    verify_signature wire.sign secret r.timestamp r.body (drop_chars 7 r.signature)

verify-sign :
    (sign : String → String → String) (secret message : String)
    → sign secret message ≢ ""
    → verify sign secret message (sign secret message) ≡ true
unfolding verify
verify-sign sign secret message h =
    let same = (eq_iff (sign secret message) (sign secret message)).1 refl in
    elim (Bool-cases (str_eq (sign secret message) "")) [
      | inl e ↦ ground (arith, h ((eq_iff (sign secret message) "").0 e))
      | inr e ↦ rw (e) same
    ]

drop-scheme : (t : String) → drop_chars 7 ("sha256=" ++ t) ≡ t
drop-scheme t = drop_chars-append "sha256=" t

-- Where the HMAC is never the empty text, a receiver with the endpoint's secret accepts every
-- delivery's request.
pub build_request-accepted :
    (wire : Wire) (now : ℕ) (d : WebhookDelivery)
    → ((message : String) → wire.sign d.endpoint.secret message ≢ "")
    → is_accepted wire d.endpoint.secret (build_request wire now d) ≡ true
unfolding build_request verify_signature build_signature canonical_body drop_chars
build_request-accepted wire now d h =
    let message = wire.timestamp_text now ++ ("." ++ wire.dumps d.payload) in
    let signed = wire.sign d.endpoint.secret message in
    subst (λ t. verify wire.sign d.endpoint.secret message t ≡ true) (sym (drop-scheme signed))
      (verify-sign wire.sign d.endpoint.secret message (h message))
