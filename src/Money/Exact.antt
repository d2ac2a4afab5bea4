-- ===== src/Money/Exact.antt =====
-- `mulDivRem` and `mulDivRound` against exact arithmetic on numbers of any size.
use native.Mathlib.Nat.{mod-lt, le-div_iff_mul-le}
use market_place.Prelude.{
  ℕ, ◌+◌, ◌*◌, ◌/◌, ◌%◌, ◌≤◌, ◌<◌, ◌≡◌, ℤ, pos, pos_part, neg_part, nat_abs, sub_ℕ, Bool, true,
  false, ◌&&◌, if◌then◌else◌, ltb, leb, ltb_ℤ, ◌==ℤ◌, Bool-cases, inl, inr, leb→le, Result, ok, err,
  arith, wrap64, add64, neg64, word, half_word, IsInt64, ◌+ℤ◌, ◌-ℤ◌,
}
use market_place.Money.Types.{MoneyError, overflow}
use market_place.Money.Wide.{to_i64, abs_u64, differ, narrow, mul_div_rem}

abbrev pub is_neg : ℤ → Bool
is_neg a = ltb_ℤ a (pos 0)

abs_u64_lem : (v : ℤ) → IsInt64 v → abs_u64 v ≡ (nat_abs v, is_neg v)
unfolding abs_u64 neg64 add64 wrap64 ◌+ℤ◌ ◌-ℤ◌
abs_u64_lem v h = ground arith

-- n with a sign.
abbrev pub signed : Bool → ℕ → ℤ
signed false n = pos n
signed true n = sub_ℕ 0 n

-- Whether an integer is a value of `int64`.
abbrev pub fits : ℤ → Bool
fits a = ltb (pos_part a) half_word && leb (neg_part a) half_word

-- The integer, or the overflow error when it is no `int64`.
abbrev pub checked : ℤ → Result MoneyError ℤ
checked a = if fits a then ok a else err overflow

-- The sign of a * b / den.
abbrev pub sign_of : ℤ → ℤ → ℤ → Bool
sign_of a b den = differ (is_neg den) (differ (is_neg a) (is_neg b))

split_word : (p : ℕ) → p / word * word + p % word ≡ p
split_word p = omega arith

-- A high word that is not below the divisor makes the quotient too wide.
div_wide : (p d : ℕ) → 0 < d → d ≤ p / word → word ≤ p / d
div_wide p d hd h = (le-div_iff_mul-le {k = d} {x = word} {y = p} hd).1 (omega arith)

to_i64_small : (n : ℕ) → n < half_word → to_i64 n ≡ pos n
unfolding to_i64 wrap64
to_i64_small n h = ground arith

neg64-to_i64 : (n : ℕ) → n < half_word → neg64 (to_i64 n) ≡ sub_ℕ 0 n
unfolding neg64 to_i64 wrap64 ◌-ℤ◌
neg64-to_i64 n h = ground arith

-- A quotient and a remainder with a sign, or the overflow error when the quotient does not fit.
abbrev pub checked_pair : Bool → ℕ → ℕ → Result MoneyError (ℤ × ℤ)
checked_pair s q r = if fits (signed s q) then ok (signed s q, signed s r) else err overflow

narrow_lem : (s : Bool) (q r : ℕ) → r < half_word → narrow s q r ≡ checked_pair s q r
unfolding narrow
narrow_lem true q r h = ground (arith, neg64-to_i64 q, neg64-to_i64 r)
narrow_lem false q r h = ground (arith, to_i64_small q, to_i64_small r)

checked_pair_wide : (s : Bool) (q r : ℕ) → word ≤ q → checked_pair s q r ≡ err overflow
checked_pair_wide true q r h = ground arith
checked_pair_wide false q r h = ground arith

-- For `int64` arguments and a divisor that is not 0, `mulDivRem` returns the quotient and the
-- remainder of the exact product, truncated toward 0 and with their signs, when the quotient is an
-- `int64`, and the overflow error when it is not.
pub mul_div_rem_lem :
    (a b den : ℤ)
    → IsInt64 a
    → IsInt64 b
    → IsInt64 den
    → 0 < nat_abs den
    → let n = nat_abs a * nat_abs b in
      let d = nat_abs den in mul_div_rem a b den ≡ checked_pair (sign_of a b den) (n / d) (n % d)
unfolding mul_div_rem
mul_div_rem_lem a b den ha hb hd pos_den =
    let n = nat_abs a * nat_abs b in
    let d = nat_abs den in
    let rest : n % d < d = mod-lt n pos_den in
    let small : d ≤ half_word = ground arith in
    let nonzero : (den ==ℤ pos 0) ≡ false = ground arith in
    rw (abs_u64_lem a ha, abs_u64_lem b hb, abs_u64_lem den hd, split_word n, nonzero)
      (elim (Bool-cases (leb d (n / word))) [
        | inl wide ↦
            rw (wide, checked_pair_wide _ _ (n % d) (div_wide n d pos_den (leb→le _ _ wide)))
        | inr fine ↦ rw fine (narrow_lem _ _ _ (omega arith))
      ])
