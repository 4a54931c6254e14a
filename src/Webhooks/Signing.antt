-- ===== src/Webhooks/Signing.antt =====
-- apps/webhooks/signing.py. `json.dumps` of a payload and the HMAC are the library's and
-- parameters.
use kusanya.Base.{String, Bool, List}
use kusanya.Core.Objects.{Value}
use kusanya.Core.Signing.{verify}
use Prim.Native.String.{◌++◌}

unfoldable pub canonical_body : (List (String × Value) → String) → List (String × Value) → String
canonical_body dumps payload = dumps payload

module _ (sign : String → String → String) where
  unfoldable pub build_signature : String → String → String → String
  build_signature secret timestamp body = sign secret (timestamp ++ ("." ++ body))

  unfoldable pub verify_signature : String → String → String → String → Bool
  verify_signature secret timestamp body signature =
      verify sign secret (timestamp ++ ("." ++ body)) signature
