-- ===== src/Core/Encrypted.antt =====
-- apps/core/encrypted_fields.py: a value as the program has it, and as the column stores it.
-- Fernet is a library and a parameter, with what its documentation promises; each encryption takes
-- its own random bytes. `None` is `none`.
use kusanya.Base.{
  ℕ, ◌<◌, ◌==◌, ◌&&◌, ◌⊎◌, not, String, Option, none, some, ◌≡◌, ◌≢◌, refl, arith, ltb, str_eq,
  eq_iff, if◌then◌else◌, Bool-cases, inl, inr, ◌≤◌,
}
use Prim.Native.String.{count}
use kusanya.Core.Result.{Result, ok, err, value_error}

pub record Fernet : Type 0 where
  pub encrypt : ℕ → String → String
  -- nothing at an `InvalidToken`
  pub decrypt : String → Option String
  pub decrypt-encrypt : (salt : ℕ) (t : String) → decrypt (encrypt salt t) ≡ some t
  pub encrypt-some : (salt : ℕ) (t : String) → encrypt salt t ≢ ""

abbrev or_unreadable : Option String → String
or_unreadable none = "[unreadable: decryption failed]"
or_unreadable (some t) = t

module _ (fernet : Fernet) where
  -- `EncryptedTextField.from_db_value`
  unfoldable pub from_db_value : Option String → Option String
  from_db_value none = none
  from_db_value (some t) = if str_eq t "" then some t else some (or_unreadable (fernet.decrypt t))

  -- `EncryptedTextField.get_prep_value`
  unfoldable pub get_prep_text : ℕ → Option String → Option String
  get_prep_text salt none = none
  get_prep_text salt (some t) = if str_eq t "" then some t else some (fernet.encrypt salt t)

  -- `EncryptedCharField.get_prep_value`; a `max_length` of 0 is none.
  unfoldable pub get_prep_value : ℕ → ℕ → Option String → Result (Option String)
  get_prep_value max_length salt none = ok (get_prep_text salt none)
  get_prep_value max_length salt (some t) =
      if not (max_length == 0) && ltb max_length (count t)
      then err value_error
      else ok (get_prep_text salt (some t))

  from_db-prep :
      (salt : ℕ) (value : Option String) → from_db_value (get_prep_text salt value) ≡ value
  unfolding from_db_value get_prep_text
  from_db-prep salt none = refl
  from_db-prep salt (some t) = elim (Bool-cases (str_eq t "")) [
    | inl e ↦ rw (e, e) refl
    | inr e ↦ ground (
      arith,
      e,
      fernet.decrypt-encrypt salt t,
      fernet.encrypt-some salt t,
      eq_iff (fernet.encrypt salt t) "",
    )
  ]

  abbrev pub length_of : Option String → ℕ
  length_of none = 0
  length_of (some t) = count t

  -- What a write that succeeds stores, and when a write is refused.
  abbrev pub IsStored : ℕ → Option String → Result (Option String) → Type 0
  IsStored max_length value (ok stored) =
      (from_db_value stored ≡ value) × ((max_length ≡ 0) ⊎ (length_of value ≤ max_length))
  IsStored max_length value (err e) =
      (e ≡ value_error) × (max_length ≢ 0) × (max_length < length_of value)

  -- A value of an encrypted column, empty ones included, reads back as it was written; a write is
  -- refused just if the column has a longest length and the text is longer.
  pub get_prep_value-IsStored :
      (max_length salt : ℕ) (value : Option String)
      → IsStored max_length value (get_prep_value max_length salt value)
  unfolding get_prep_value
  get_prep_value-IsStored max_length salt none = (from_db-prep salt none, inr (omega arith))
  get_prep_value-IsStored max_length salt (some t) =
      elim (Bool-cases (not (max_length == 0) && ltb max_length (count t))) [
        | inl long ↦ rw (long) (refl, ground arith, ground arith)
        | inr fits ↦ rw (fits) (from_db-prep salt (some t), ground arith)
      ]
