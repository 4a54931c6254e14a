-- ===== src/Core/Signing.antt =====
-- apps/core/signing.py. `hmac.new(secret, message, sha256).hexdigest()` is the library's and a
-- parameter; `hmac.compare_digest` is equality, of the ASCII texts that it takes.
use kusanya.Base.{String, Bool, false, str_eq, if◌then◌else◌}

module _ (sign : String → String → String) where
  unfoldable pub verify : String → String → String → Bool
  verify secret message signature =
      if str_eq signature "" then false else str_eq (sign secret message) signature
