-- ===== src/Core/Result.antt =====
-- The exceptions that the services raise, and the result of a call that may raise. The text of a
-- `ValidationError` is shown to a user and not modelled; that of a `ProviderError`
-- is stored; its two subclasses (apps/providers/base.py) are `provider_timeout` and
-- `invalid_signature`. `key_error` and `value_error` are Python's own, the
-- second for all that a text may raise in `format_map` too; `data_error` is the database's, of a
-- text that is too long for its column.
use kusanya.Base.{String, Option, none, some}

pub data Error : Type 0 where
  validation integrity does_not_exist key_error value_error data_error : Error
  provider_error provider_timeout invalid_signature : String → Error

pub data Result {ℓ} (A : Type ℓ) : Type ℓ where
  ok : A → Result A
  err : Error → Result A

-- A write that goes through unless a column refuses it.
abbrev pub unless {ℓ κ} : {A : Type ℓ} {S : Type κ} → Option Error → Result A × S → S → Result A × S
unless (some e) written s = (err e, s)
unless none written s = written
