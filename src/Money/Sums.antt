-- ===== src/Money/Sums.antt =====
-- Addition, subtraction and sums of amounts against exact integer arithmetic.
use mathlib.Core.Path.{subst}
use text.Mathlib.TextEquality.{eq_iff}
use market_place.Prelude.{
  sym, ◌≡◌, refl, ℤ, pos, neg_part, true, false, not, if◌then◌else◌, ◌==ℤ◌, List, [], ◌∷◌, All,
  Bool-cases, inl, inr, Result, ok, err, arith, wrap64, add64, min_int64, IsInt64, ◌+ℤ◌, ◌-ℤ◌,
  int_laws, sign_laws, +ℤ_assoc, add64_exact, neg64_exact,
}
use market_place.Money.Types.{Currency, MoneyError, currency_mismatch, overflow, Money, same_code}
use market_place.Money.Exact.{fits}
use market_place.Money.Arith.{add_overflows, add, neg, sub, sum_from, sum}

-- An amount with this exact value, or the overflow error when it is no `int64`.
abbrev pub amount : ℤ → Currency → Result MoneyError Money
amount a c = if fits a then ok (record { minor = a; cur = c }) else err overflow

-- What an operation on two amounts of the value a gives: refused at two currencies.
abbrev pub in_one_currency : Money → Money → ℤ → Result MoneyError Money
in_one_currency m o a = if same_code m.cur o.cur then amount a m.cur else err currency_mismatch

-- The test of `Add` on the wrapped sum finds exactly the sums that do not fit.
add_overflows_lem :
    (a b : ℤ) → IsInt64 a → IsInt64 b → add_overflows a b (add64 a b) ≡ not (fits (a +ℤ b))
unfolding add64 wrap64 ◌+ℤ◌
add_overflows_lem a b ha hb = ground arith

pub fits-IsInt64 : (a : ℤ) → fits a ≡ true → IsInt64 a
fits-IsInt64 a h = ground arith

pub IsInt64-fits : (a : ℤ) → IsInt64 a → fits a ≡ true
IsInt64-fits a h = ground arith

-- For `int64` values, `Add` refuses two currencies, and else gives the exact sum when that is an
-- `int64` and the overflow error when it is not.
pub add_exact :
    (m o : Money)
    → IsInt64 m.minor
    → IsInt64 o.minor
    → add m o ≡ in_one_currency m o (m.minor +ℤ o.minor)
unfolding add
add_exact m o hm ho =
    let a = m.minor +ℤ o.minor in
    rw (add_overflows_lem m.minor o.minor hm ho) (elim (Bool-cases (fits a)) [
      | inl fit ↦ rw (fit, add64_exact m.minor o.minor (fits-IsInt64 a fit)) (ground arith)
      | inr wide ↦ rw wide (ground arith)
    ])

negation_fits : (b : ℤ) → IsInt64 b → (b ==ℤ min_int64) ≡ false → IsInt64 (pos 0 -ℤ b)
unfolding ◌-ℤ◌
negation_fits b hb h = ground arith

-- `Neg` fails at `math.MinInt64` alone.
neg_lem :
    (m : Money)
    → IsInt64 m.minor
    → (m.minor ==ℤ min_int64) ≡ false
    → neg m ≡ ok (record { minor = pos 0 -ℤ m.minor; cur = m.cur })
unfolding neg
neg_lem m hm more = rw (more, neg64_exact m.minor (negation_fits m.minor hm more))

neg_least : (m : Money) → (m.minor ==ℤ min_int64) ≡ true → neg m ≡ err overflow
unfolding neg
neg_least m least = rw least

-- For `int64` values, `Sub` refuses two currencies. In one currency it fails at `math.MinInt64` on
-- the right, also where the difference is an `int64`; else it gives the exact difference when that
-- is an `int64` and the overflow error when it is not.
pub sub_exact :
    (m o : Money)
    → IsInt64 m.minor
    → IsInt64 o.minor
    → sub m o ≡ (
        if same_code m.cur o.cur
        then if o.minor ==ℤ min_int64 then err overflow else amount (m.minor -ℤ o.minor) m.cur
        else err currency_mismatch)
unfolding sub
sub_exact m o hm ho = elim (Bool-cases (same_code m.cur o.cur)) [
  | inr two ↦ rw two
  | inl one ↦ elim (Bool-cases (o.minor ==ℤ min_int64)) [
    | inl least ↦ rw (one, least, neg_least o least)
    | inr more ↦
        let n : Money = record { minor = pos 0 -ℤ o.minor; cur = o.cur } in
        let value : m.minor +ℤ (pos 0 -ℤ o.minor) ≡ m.minor -ℤ o.minor = omega int_laws in
        rw (
          one,
          more,
          neg_lem o ho more,
          add_exact m n hm (negation_fits o.minor ho more),
          one,
          value,
        )
  ]
]

-- The exact sum of the values.
abbrev pub total : List Money → ℤ
total [] = pos 0
total (m ∷ ms) = m.minor +ℤ total ms

-- An amount in the currency c, with an `int64` that is 0 or more.
abbrev pub IsNatural : Currency → Money → Type 0
IsNatural c m = (m.cur ≡ c) × (neg_part m.minor ≡ 0) × IsInt64 m.minor

abbrev pub AreNatural : Currency → List Money → Type 0
AreNatural c = All (IsNatural c)

pub same_code_refl : (c d : Currency) → d ≡ c → same_code c d ≡ true
same_code_refl c d e = (eq_iff c d).1 (sym e)

pub total_natural : (c : Currency) (ms : List Money) → AreNatural c ms → neg_part (total ms) ≡ 0
total_natural c [] h = refl
total_natural c (m ∷ ms) (hm, h) = omega (sign_laws, total_natural c ms h)

pub +ℤ_natural : (a b : ℤ) → neg_part a ≡ 0 → neg_part b ≡ 0 → neg_part (a +ℤ b) ≡ 0
+ℤ_natural a b ha hb = omega sign_laws

-- A sum of naturals that is too large stays so.
fits_grows : (a b : ℤ) → neg_part a ≡ 0 → neg_part b ≡ 0 → fits a ≡ false → fits (a +ℤ b) ≡ false
unfolding ◌+ℤ◌
fits_grows a b ha hb h = ground arith

sum_from_exact :
    (acc : Money) (ms : List Money)
    → neg_part acc.minor ≡ 0
    → IsInt64 acc.minor
    → AreNatural acc.cur ms
    → sum_from acc ms ≡ amount (acc.minor +ℤ total ms) acc.cur
unfolding sum_from
sum_from_exact acc [] n h t =
    let same : acc.minor +ℤ pos 0 ≡ acc.minor = omega int_laws in
    rw (same, IsInt64-fits acc.minor h)
sum_from_exact acc (m ∷ ms) n h ((code, natural, inside), t) =
    let a = acc.minor +ℤ m.minor in
    let nat : neg_part a ≡ 0 = +ℤ_natural acc.minor m.minor n natural in
    rw
      (
        add_exact acc m h inside,
        same_code_refl acc.cur m.cur code,
        ← +ℤ_assoc acc.minor m.minor (total ms),
      )
      (elim (Bool-cases (fits a)) [
        | inl fit ↦
            rw fit
              (sum_from_exact (record { minor = a; cur = acc.cur }) ms nat (fits-IsInt64 a fit) t)
        | inr wide ↦ rw (wide, fits_grows a (total ms) nat (total_natural acc.cur ms t) wide)
      ])

sum_own :
    (m : Money) (ms : List Money)
    → AreNatural m.cur (m ∷ ms)
    → sum (m ∷ ms) ≡ amount (total (m ∷ ms)) m.cur
unfolding sum
sum_own m ms h =
    let same : pos 0 +ℤ total (m ∷ ms) ≡ total (m ∷ ms) = omega int_laws in
    rw (sum_from_exact (record { minor = pos 0; cur = m.cur }) (m ∷ ms) refl (omega arith) h, same)

-- For one or more amounts in one currency that are not negative, `Sum` gives the exact sum when that
-- is an `int64`, and the overflow error when it is not.
pub sum_exact :
    {c : Currency} (m : Money) (ms : List Money)
    → AreNatural c (m ∷ ms)
    → sum (m ∷ ms) ≡ amount (total (m ∷ ms)) c
sum_exact m ms h =
    subst (λ d. AreNatural d (m ∷ ms) → sum (m ∷ ms) ≡ amount (total (m ∷ ms)) d) h.0.0
      (sum_own m ms) h
