-- ===== src/Money/Arith.antt =====
-- The methods of `Money` in internal/platform/money/money.go.
use market_place.Prelude.{
  ℤ, pos, negsuc, Bool, not, ◌&&◌, ◌||◌, List, [], ◌∷◌, if◌then◌else◌, ltb_ℤ, leb_ℤ, ◌==ℤ◌, Result,
  ok, err, ◌>>=◌, ◌>>◌, refuse_if, add64, neg64, min_int64,
}
use market_place.Money.Types.{
  MoneyError, currency_mismatch, overflow, divide_by_zero, empty_sum, Rounding, Money, same_code,
}
use market_place.Money.Wide.{mul_checked, mul_div_round}

-- `sameCurrency`
abbrev pub same_currency : Money → Money → Result MoneyError (Unit {0})
same_currency m o = refuse_if (not (same_code m.cur o.cur)) currency_mismatch

-- The overflow test of `Add` on the wrapped sum.
abbrev pub add_overflows : (m o sum : ℤ) → Bool
add_overflows m o sum =
    (ltb_ℤ (pos 0) m && ltb_ℤ (pos 0) o && ltb_ℤ sum (pos 0))
    || (ltb_ℤ m (pos 0) && ltb_ℤ o (pos 0) && leb_ℤ (pos 0) sum)

-- `Add`
unfoldable pub add : Money → Money → Result MoneyError Money
add m o = do
  same_currency m o
  let sum = add64 m.minor o.minor
  refuse_if (add_overflows m.minor o.minor sum) overflow
  ok (record { minor = sum; cur = m.cur })

-- `Neg`
unfoldable pub neg : Money → Result MoneyError Money
neg m =
    if m.minor ==ℤ min_int64
    then err overflow
    else ok (record { minor = neg64 m.minor; cur = m.cur })

-- `Sub`
unfoldable pub sub : Money → Money → Result MoneyError Money
sub m o = do same_currency m o; n ← neg o; add m n

-- `Abs`
unfoldable pub abs : Money → Result MoneyError Money
unfolding neg
abs m = if leb_ℤ (pos 0) m.minor then ok m else neg m

-- `MulInt`
unfoldable pub mul_int : Money → ℤ → Result MoneyError Money
mul_int m n = do p ← mul_checked m.minor n; ok (record { minor = p; cur = m.cur })

-- `MulRatio`
unfoldable pub mul_ratio : Money → (num den : ℤ) → Rounding → Result MoneyError Money
mul_ratio m num den mode = do
  refuse_if (den ==ℤ pos 0) divide_by_zero
  r ← mul_div_round m.minor num den mode
  ok (record { minor = r; cur = m.cur })

-- `ApplyBasisPoints`
unfoldable pub apply_basis_points : Money → ℤ → Rounding → Result MoneyError Money
unfolding mul_ratio
apply_basis_points m bps mode = mul_ratio m bps (pos 10_000) mode

-- `Cmp`
unfoldable pub cmp : Money → Money → Result MoneyError ℤ
cmp m o = do
  same_currency m o
  ok (if ltb_ℤ m.minor o.minor then negsuc 0 else if ltb_ℤ o.minor m.minor then pos 1 else pos 0)

-- The loop of `Sum`.
unfoldable pub sum_from : Money → List Money → Result MoneyError Money
sum_from acc [] = ok acc
sum_from acc (m ∷ ms) = do next ← add acc m; sum_from next ms

-- `Sum`
unfoldable pub sum : List Money → Result MoneyError Money
unfolding sum_from
sum [] = err empty_sum
sum (m ∷ ms) = sum_from (record { minor = pos 0; cur = m.cur }) (m ∷ ms)
