-- ===== src/Money/Types.antt =====
-- The types of internal/platform/money/money.go: currencies, errors, rounding modes, amounts.
use Prim.Native.String.{String}
use text.Mathlib.Text.{◌==◌ as str_eq}
use market_place.Prelude.{
  ℕ, ℤ, pos, Bool, false, true, not, ◌||◌, Option, none, some, if◌then◌else◌, Result, ok, err,
  ltb_ℤ, ◌==ℤ◌, ◌&&◌,
}

-- `type Currency string`
abbrev pub Currency : Type 0
Currency = String

-- The package's error values; the texts that go with them are left out.
pub data MoneyError : Type 0 where
  currency_mismatch unknown_currency overflow divide_by_zero parse_failed : MoneyError
  no_weights negative_weight empty_sum unknown_rounding : MoneyError

-- `type Rounding uint8`: the four named modes, and any other byte.
pub data Rounding : Type 0 where
  half_up half_even down up : Rounding
  other : ℕ → Rounding

-- `minor` is an `int64`.
pub record Money : Type 0 where
  pub minor : ℤ
  pub cur : Currency

-- `m.cur == o.cur`, the comparison of two strings.
abbrev pub same_code : Currency → Currency → Bool
same_code a b = str_eq a b

-- The map `exponent`, as a look-up.
unfoldable pub exponent : Currency → Option ℕ
exponent c =
    if str_eq c "INR"
      || str_eq c "USD"
      || str_eq c "EUR"
      || str_eq c "GBP"
      || str_eq c "AUD"
      || str_eq c "SGD"
      || str_eq c "AED"
      || str_eq c "CAD"
    then some 2
    else if str_eq c "JPY"
    then some 0
    else none

abbrev is_some : Option ℕ → Bool
is_some none = false
is_some (some _) = true

-- `Valid`
unfoldable pub is_valid : Currency → Bool
is_valid c = is_some (exponent c)

-- `New`
unfoldable pub new : ℤ → Currency → Result MoneyError Money
new minor c =
    if not (is_valid c) then err unknown_currency else ok (record { minor = minor; cur = c })

-- `Zero`
abbrev pub zero_of : Currency → Money
zero_of c = record { minor = pos 0; cur = c }

-- `IsZero`, `IsNegative`, `IsPositive` and `Equal`.
abbrev pub is_zero : Money → Bool
is_zero m = m.minor ==ℤ pos 0

abbrev pub is_negative : Money → Bool
is_negative m = ltb_ℤ m.minor (pos 0)

abbrev pub is_positive : Money → Bool
is_positive m = ltb_ℤ (pos 0) m.minor

abbrev pub equal : Money → Money → Bool
equal m o = same_code m.cur o.cur && m.minor ==ℤ o.minor
