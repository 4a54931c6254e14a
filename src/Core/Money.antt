-- ===== src/Core/Money.antt =====
-- apps/core/money.py. An amount is a number of cents; `quantize` takes a `Decimal` of any scale,
-- which is an integer and a number of decimal places.
use kusanya.Base.{ℕ, ◌+◌, ◌-◌, ◌*◌, ◌/◌, ◌^◌, String, ltb, str_eq, if◌then◌else◌}
use kusanya.Base.Int.{ℤ, pos, negsuc, neg, ◌*ℤ◌}

abbrev pub default_currency : String
default_currency = "TZS"

-- `CURRENCY_EXPONENTS.get(currency, 2)`
pub exponent : String → ℕ
exponent currency =
    if str_eq currency "TZS"
    then 2
    else if str_eq currency "KES"
    then 2
    else if str_eq currency "UGX"
    then 0
    else if str_eq currency "USD"
    then 2
    else 2

-- `coefficient * 10 ** -places`
pub record Decimal : Type 0 where
  pub coefficient : ℤ
  pub places : ℕ

-- `ROUND_HALF_UP` of a magnitude over a power of ten: a tie goes away from zero.
pub half_up : ℕ → ℕ → ℕ
half_up n unit = (2 * n + unit) / (2 * unit)

pub round_half_up : ℤ → ℕ → ℤ
unfolding half_up
round_half_up (pos n) unit = pos (half_up n unit)
round_half_up (negsuc n) unit = neg (pos (half_up (n + 1) unit))

-- The coefficient of `Decimal(amount).quantize(quantum, rounding=ROUND_HALF_UP)`, where `quantum`
-- has `e` decimal places: more places are padded with zeros, fewer are rounded.
pub quantize_to : ℕ → Decimal → ℤ
unfolding round_half_up
quantize_to e d =
    if ltb e d.places
    then round_half_up d.coefficient (10 ^ (d.places - e))
    else d.coefficient *ℤ pos (10 ^ (e - d.places))

-- `quantize`
pub quantize : Decimal → String → Decimal
unfolding exponent quantize_to
quantize amount currency = record {
  coefficient = quantize_to (exponent currency) amount;
  places = exponent currency;
}
