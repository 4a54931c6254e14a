-- ===== src/Accounts/Totp/Digest.antt =====
-- apps/accounts/totp.py, the dynamic truncation of a digest, its bytes as numbers.
use kusanya.Base.{ℕ, zero, suc, ◌+◌, ◌*◌, ◌%◌, List, [], ◌∷◌}

-- `digest[i]`, and 0 past the end
unfoldable pub byte_at : List ℕ → ℕ → ℕ
byte_at [] i = 0
byte_at (b ∷ bs) zero = b
byte_at (b ∷ bs) (suc i) = byte_at bs i

-- `digest[-1]`
unfoldable pub last_byte : List ℕ → ℕ
last_byte [] = 0
last_byte (b ∷ []) = b
last_byte (b ∷ c ∷ bs) = last_byte (c ∷ bs)

-- `digest[-1] & 0x0F`
unfoldable pub offset_of : List ℕ → ℕ
offset_of digest = last_byte digest % 16

-- `struct.unpack(">I", digest[offset : offset + 4])[0] & 0x7FFFFFFF`
unfoldable pub truncated : List ℕ → ℕ
truncated digest =
    let o = offset_of digest in
    let word =
      ((byte_at digest o * 256 + byte_at digest (o + 1)) * 256 + byte_at digest (o + 2)) * 256
      + byte_at digest (o + 3) in
    word % 2147483648
