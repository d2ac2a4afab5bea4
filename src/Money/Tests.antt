-- ===== src/Money/Tests.antt =====
-- Runs of internal/platform/money/money.go on given amounts.
use market_place.Prelude.{
  ◌≡◌, refl, ℕ, false, ◌*ℤ◌, ℤ, pos, ok, arith, ◌+ℤ◌, ◌*◌, ◌-ℤ◌, wrap64, add64, neg64, mul64,
}
use market_place.Money.Types.{Money, half_up}
use market_place.Money.Wide.{
  to_u64, to_i64, abs_u64, narrow, mul_div_rem, bumps, away, resolve, mul_div_round,
}
use market_place.Money.Exact.{checked, signed}
use market_place.Money.Round.{IsRounded, mul_div_round_exact}

abbrev rupees : ℤ → Money
rupees a = record { minor = a; cur = "INR" }

abbrev dollars : ℤ → Money
dollars a = record { minor = a; cur = "USD" }

mul_div_round_exact_example :
    (x : ℕ) × IsRounded half_up (1005 * 1800) 10_000 x
    × (mul_div_round (pos 1005) (pos 1800) (pos 10_000) half_up ≡ checked (signed false x))
mul_div_round_exact_example =
    mul_div_round_exact (pos 1005) (pos 1800) (pos 10_000) half_up (omega arith, omega arith)
      (omega arith, omega arith) (omega arith) (omega arith) tt

-- 18 % of 10.05 is 1.809.
eighteen_percent : mul_div_round (pos 1005) (pos 1800) (pos 10_000) half_up ≡ ok (pos 181)
unfolding mul_div_round mul_div_rem resolve bumps away narrow abs_u64 to_u64 to_i64 add64 neg64
    mul64 wrap64 ◌+ℤ◌ ◌-ℤ◌ ◌*ℤ◌
eighteen_percent = refl
