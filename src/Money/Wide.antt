-- ===== src/Money/Wide.antt =====
-- The 128-bit helpers at the end of internal/platform/money/money.go. A `uint64` is a number below
-- 2 ^ 64, and the pair `hi, lo` of package math/bits is `hi * 2 ^ 64 + lo`.
use market_place.Prelude.{
  ℕ, ◌+◌, ◌-◌, ◌*◌, ◌/◌, ◌%◌, ◌^◌, ℤ, pos, negsuc, nat_abs, Bool, true, false, not, ◌||◌, ◌&&◌,
  if◌then◌else◌, ltb, leb, ◌==◌, ltb_ℤ, leb_ℤ, ◌==ℤ◌, Result, ok, err, ◌>>=◌, wrap64, add64, sub64,
  mul64, neg64, word, max_int64, min_int64,
}
use market_place.Money.Types.{
  MoneyError, overflow, divide_by_zero, unknown_rounding, Rounding, half_up, half_even, down, up,
  other,
}

-- The conversions `uint64(v)` and `int64(u)`.
unfoldable pub to_u64 : ℤ → ℕ
to_u64 (pos n) = n % word
to_u64 (negsuc n) = word - 1 - n % word

unfoldable pub to_i64 : ℕ → ℤ
to_i64 u = wrap64 (pos u)

-- `absU64`
unfoldable pub abs_u64 : ℤ → ℕ × Bool
unfolding to_u64
abs_u64 v =
    if ltb_ℤ v (pos 0)
    then ((to_u64 (neg64 (add64 v (pos 1))) + 1) % word, true)
    else (to_u64 v, false)

-- `a != b` on Booleans.
abbrev pub differ : Bool → Bool → Bool
differ true b = not b
differ false b = b

-- The end of `mulDivRem`: the unsigned quotient and remainder with their sign, if they fit.
unfoldable pub narrow : (neg : Bool) (uq ur : ℕ) → Result MoneyError (ℤ × ℤ)
narrow true uq ur =
    if ltb (2 ^ 63 - 1 + 1) uq
    then err overflow
    else if uq == (2 ^ 63 - 1 + 1)
    then ok (min_int64, neg64 (to_i64 ur))
    else ok (neg64 (to_i64 uq), neg64 (to_i64 ur))
narrow false uq ur = if ltb (2 ^ 63 - 1) uq then err overflow else ok (to_i64 uq, to_i64 ur)

-- `mulDivRem`: a * b / den through the 128-bit product, with the remainder.
unfoldable pub mul_div_rem : ℤ → ℤ → ℤ → Result MoneyError (ℤ × ℤ)
mul_div_rem a b den =
    let (ua, n1) = abs_u64 a in
    let (ub, n2) = abs_u64 b in
    let (ud, n3) = abs_u64 den in
    let neg = differ n3 (differ n1 n2) in
    let hi = ua * ub / word in
    let lo = ua * ub % word in
    let wide = hi * word + lo in
    if den ==ℤ pos 0
    then err divide_by_zero
    else if leb ud hi
    then err overflow
    else narrow neg (wide / ud) (wide % ud)

-- `q % 2 != 0`
abbrev is_odd : ℤ → Bool
is_odd q = not (nat_abs q % 2 == 0)

-- The switch of `mulDivRound` on the mode: whether to step away from zero.
unfoldable pub bumps : Rounding → (q abs_rem abs_den : ℤ) → Result MoneyError Bool
bumps down q r d = ok false
bumps up q r d = ok true
bumps half_up q r d = ok (leb_ℤ d (mul64 r (pos 2)))
bumps half_even q r d =
    let twice = mul64 r (pos 2) in
    if ltb_ℤ d twice then ok true else if ltb_ℤ twice d then ok false else ok (is_odd q)
bumps (other _) q r d = err unknown_rounding

-- The end of `mulDivRound`: one step away from zero, unless that leaves the range.
unfoldable pub away : (negative : Bool) → ℤ → Result MoneyError ℤ
away true q = if q ==ℤ min_int64 then err overflow else ok (sub64 q (pos 1))
away false q = if q ==ℤ max_int64 then err overflow else ok (add64 q (pos 1))

-- `if v < 0 { v = -v }`
abbrev pub flip_negative : ℤ → ℤ
flip_negative v = if ltb_ℤ v (pos 0) then neg64 v else v

-- The part of `mulDivRound` behind its call of `mulDivRem`.
unfoldable pub resolve : ℤ → Rounding → ℤ × ℤ → Result MoneyError ℤ
unfolding bumps away
resolve den mode (q, rem) = if rem ==ℤ pos 0 then ok q else do
  bump ← bumps mode q (flip_negative rem) (flip_negative den)
  if bump then away (ltb_ℤ q (pos 0) || (q ==ℤ pos 0 && ltb_ℤ rem (pos 0))) q else ok q

-- `mulDivRound`
unfoldable pub mul_div_round : ℤ → ℤ → ℤ → Rounding → Result MoneyError ℤ
unfolding mul_div_rem resolve
mul_div_round a b den mode = do qr ← mul_div_rem a b den; resolve den mode qr

-- Go's division of two `int64` values, which rounds toward zero; -2^63 / -1 wraps.
unfoldable pub div64 : ℤ → ℤ → ℤ
div64 a b =
    let q = nat_abs a / nat_abs b in
    if differ (ltb_ℤ a (pos 0)) (ltb_ℤ b (pos 0)) then neg64 (wrap64 (pos q)) else wrap64 (pos q)

-- `mulOverflowChecked`
unfoldable pub mul_checked : ℤ → ℤ → Result MoneyError ℤ
unfolding div64
mul_checked a b =
    let p = mul64 a b in
    if (a ==ℤ pos 0) || (b ==ℤ pos 0)
    then ok (pos 0)
    else if not (div64 p b ==ℤ a)
        || (a ==ℤ min_int64 && b ==ℤ negsuc 0)
        || (b ==ℤ min_int64 && a ==ℤ negsuc 0)
    then err overflow
    else ok p
