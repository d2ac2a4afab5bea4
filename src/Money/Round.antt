-- ===== src/Money/Round.antt =====
-- `mulDivRound` gives the exactly rounded quotient, for every named mode.
use native.Mathlib.Nat.{div-add-mod, mod-lt}
use market_place.Prelude.{
  ℕ, sym, ◌&&◌, ◌||◌, ◌+◌, ◌*◌, ◌/◌, ◌%◌, ◌^◌, ◌≤◌, ◌<◌, ◌≡◌, refl, ℤ, pos, nat_abs, Bool, true,
  false, not, if◌then◌else◌, ltb, leb, ◌==◌, ◌==ℤ◌, Bool-cases, inl, inr, ok, err, arith, wrap64,
  add64, sub64, mul64, neg64, half_word, IsInt64, ◌+ℤ◌, ◌-ℤ◌, ◌*ℤ◌,
}
use market_place.Money.Types.{overflow, Rounding, half_up, half_even, down, up, other}
use market_place.Money.Wide.{bumps, away, flip_negative, resolve, mul_div_round}
use market_place.Money.Exact.{is_neg, signed, fits, checked, sign_of, mul_div_rem_lem}

-- One of the four modes that the package names.
abbrev pub IsNamed : Rounding → Type 0
IsNamed (other _) = ⊥
IsNamed _ = Unit

-- Whether the mode steps away from zero at a quotient q with the remainder r > 0.
abbrev steps : Rounding → (q r d : ℕ) → Bool
steps down q r d = false
steps up q r d = true
steps half_up q r d = leb d (r * 2)
steps half_even q r d =
    if ltb d (r * 2) then true else if ltb (r * 2) d then false else not (q % 2 == 0)
steps (other _) q r d = false

abbrev rounded : Rounding → (q r d : ℕ) → ℕ
rounded mode q r d = if r == 0 then q else if steps mode q r d then q + 1 else q

-- n / d rounded to the whole number x, by the mode's own definition: toward zero, away from zero,
-- to the nearest with a tie away from zero, or to the nearest with a tie to the even one.
abbrev pub IsRounded : Rounding → (n d x : ℕ) → Type 0
IsRounded down n d x = (d * x ≤ n) × (n < d * x + d)
IsRounded up n d x = (n ≤ d * x) × (d * x < n + d)
IsRounded half_up n d x = (2 * (d * x) ≤ 2 * n + d) × (2 * n + d < 2 * (d * x) + 2 * d)
IsRounded half_even n d x =
    (2 * (d * x) ≤ 2 * n + d)
    × (2 * n ≤ 2 * (d * x) + d)
    × (2 * (d * x) ≡ 2 * n + d → x % 2 ≡ 0)
    × (2 * n ≡ 2 * (d * x) + d → x % 2 ≡ 0)
IsRounded (other _) n d x = ⊥

mul_suc : (d q : ℕ) → d * (q + 1) ≡ d * q + d
mul_suc d q = omega arith

rounded-IsRounded :
    (mode : Rounding) (n d q r : ℕ)
    → IsNamed mode
    → d * q + r ≡ n
    → r < d
    → IsRounded mode n d (rounded mode q r d)
rounded-IsRounded down n d q r h e lt = ground (arith, mul_suc d q)
rounded-IsRounded up n d q r h e lt = ground (arith, mul_suc d q)
rounded-IsRounded half_up n d q r h e lt = ground (arith, mul_suc d q)
rounded-IsRounded half_even n d q r h e lt = ground (arith, mul_suc d q)
rounded-IsRounded (other _) n d q r h e lt = absurd h

-- Twice a remainder below 2 ^ 62 does not wrap.
double_rem : (r : ℕ) → r < 2 ^ 62 → mul64 (pos r) (pos 2) ≡ pos (r * 2)
unfolding mul64 wrap64 ◌*ℤ◌
double_rem r h = ground arith

flip_signed : (s : Bool) (r : ℕ) → r < half_word → flip_negative (signed s r) ≡ pos r
unfolding neg64 wrap64 ◌-ℤ◌
flip_signed true r h = ground arith
flip_signed false r h = ground arith

flip_den : (den : ℤ) → nat_abs den < half_word → flip_negative den ≡ pos (nat_abs den)
unfolding neg64 wrap64 ◌-ℤ◌
flip_den den h = ground arith

bumps-steps :
    (mode : Rounding) (s : Bool) (q r d : ℕ)
    → IsNamed mode
    → r < 2 ^ 62
    → bumps mode (signed s q) (pos r) (pos d) ≡ ok (steps mode q r d)
unfolding bumps
bumps-steps down s q r d h lt = refl
bumps-steps up s q r d h lt = refl
bumps-steps half_up s q r d h lt = rw (double_rem r lt) (ground arith)
bumps-steps half_even true q r d h lt = rw (double_rem r lt) (ground arith)
bumps-steps half_even false q r d h lt = rw (double_rem r lt) (ground arith)
bumps-steps (other _) s q r d h lt = absurd h

away_lem :
    (s : Bool) (q : ℕ) → IsInt64 (signed s q) → away s (signed s q) ≡ checked (signed s (q + 1))
unfolding away add64 sub64 wrap64 ◌+ℤ◌ ◌-ℤ◌
away_lem true q h = ground arith
away_lem false q h = ground arith

signed_zero : (s : Bool) (r : ℕ) → (signed s r ==ℤ pos 0) ≡ (r == 0)
signed_zero true r = ground arith
signed_zero false r = ground arith

-- The code finds the sign of a result whose quotient is 0 in the remainder.
away_sign :
    (s : Bool) (q r : ℕ)
    → 0 < r
    → (is_neg (signed s q) || (signed s q ==ℤ pos 0 && is_neg (signed s r))) ≡ s
away_sign true q r h = ground arith
away_sign false q r h = ground arith

checked_self : (a : ℤ) → IsInt64 a → checked a ≡ ok a
checked_self a h = ground arith

resolve_lem :
    (den : ℤ) (mode : Rounding) (s : Bool) (q r : ℕ)
    → IsNamed mode
    → nat_abs den ≤ 2 ^ 62
    → r < nat_abs den
    → IsInt64 (signed s q)
    → resolve den mode (signed s q, signed s r)
      ≡ checked (signed s (rounded mode q r (nat_abs den)))
unfolding resolve
resolve_lem den mode s q r named small lt fit = rw (signed_zero s r) (elim (Bool-cases (r == 0)) [
  | inl exact ↦ rw exact (sym (checked_self _ fit))
  | inr rest ↦
      rw
        (
          rest,
          flip_signed s r (omega arith),
          flip_den den (omega arith),
          bumps-steps mode s q r (nat_abs den) named (omega arith),
          away_sign s q r (ground arith),
        )
        (elim (Bool-cases (steps mode q r (nat_abs den))) [
          | inl bump ↦ rw bump (away_lem s q fit)
          | inr stay ↦ rw stay (sym (checked_self _ fit))
        ])
])

-- Once the truncated quotient does not fit, neither does the rounded one.
checked_wide :
    (mode : Rounding) (s : Bool) (q r d : ℕ)
    → fits (signed s q) ≡ false
    → checked (signed s (rounded mode q r d)) ≡ err overflow
checked_wide mode true q r d h = ground arith
checked_wide mode false q r d h = ground arith

fits-IsInt64 : (a : ℤ) → fits a ≡ true → IsInt64 a
fits-IsInt64 a h = ground arith

-- For `int64` arguments, a divisor that is not 0 and has at most 2 ^ 62 for its absolute value, and
-- a named mode, `mulDivRound` returns a * b / den rounded by that mode, with its sign, when that is
-- an `int64`, and the overflow error when it is not.
pub mul_div_round_exact :
    (a b den : ℤ) (mode : Rounding)
    → IsInt64 a
    → IsInt64 b
    → 0 < nat_abs den
    → nat_abs den ≤ 2 ^ 62
    → IsNamed mode
    → (x : ℕ) × IsRounded mode (nat_abs a * nat_abs b) (nat_abs den) x
      × (mul_div_round a b den mode ≡ checked (signed (sign_of a b den) x))
unfolding mul_div_round
mul_div_round_exact a b den mode ha hb hd small named =
    let n = nat_abs a * nat_abs b in
    let d = nat_abs den in
    let s = sign_of a b den in
    let lt : n % d < d = mod-lt n hd in
    (
      rounded mode (n / d) (n % d) d,
      rounded-IsRounded mode n d (n / d) (n % d) named (div-add-mod n d) lt,
      rw (mul_div_rem_lem a b den ha hb (omega arith) hd)
          (elim (Bool-cases (fits (signed s (n / d)))) [
            | inl fit ↦ rw fit (resolve_lem den mode s _ _ named small lt (fits-IsInt64 _ fit))
            | inr wide ↦ rw (wide, checked_wide mode s (n / d) (n % d) d wide)
          ]),
    )
