-- ===== src/Tax/Levies.antt =====
-- What each step of `Compute` gives on amounts that are not negative.
use market_place.Prelude.{
  ◌*◌, ◌≡◌, refl, sym, ◌∙◌, ◌==ℤ◌, min_int64, ℤ, pos, pos_part, neg_part, nat_abs, false,
  Bool-cases, inl, inr, List, ◌∷◌, arith, wrap, IsInt64, ◌+ℤ◌, ◌-ℤ◌, Ends, returns, fails,
}
use market_place.Money.Types.{Money, Currency, half_up}
use market_place.Money.Exact.{fits, sign_of}
use market_place.Money.Round.{IsRounded, mul_div_round_exact}
use market_place.Money.Arith.{add, sub, sum, apply_basis_points}
use market_place.Money.Sums.{
  IsNatural, AreNatural, total, add_exact, sub_exact, sum_exact, same_code_refl, fits-IsInt64,
  total_natural, +ℤ_natural,
}
use market_place.Tax.Types.{TaxError, of_money, of_verify}
use market_place.Tax.Rules.{levy}

-- An error that does not come from `Verify`.
abbrev pub IsForeseen : TaxError → Type 0
IsForeseen (of_verify _) = ⊥
IsForeseen _ = Unit

-- A rate: an `int64` that is 0 or more.
abbrev pub IsRate : ℤ → Type 0
IsRate bps = (neg_part bps ≡ 0) × IsInt64 bps

-- The amount r is m at the rate bps, rounded to the nearest unit with a tie away from zero.
abbrev pub IsLevy : Money → ℤ → Money → Type 0
IsLevy m bps r = IsRounded half_up (pos_part m.minor * pos_part bps) 10_000 (pos_part r.minor)

natural_sign : (a b : ℤ) → neg_part a ≡ 0 → neg_part b ≡ 0 → sign_of a b (pos 10_000) ≡ false
natural_sign a b ha hb = ground arith

natural_abs : (a : ℤ) → neg_part a ≡ 0 → nat_abs a ≡ pos_part a
natural_abs a h = omega arith

pub levy-Ends :
    {c : Currency} (m : Money) (bps : ℤ)
    → IsNatural c m
    → IsRate bps
    → Ends IsForeseen (λ r. IsNatural c r × IsLevy m bps r) (levy m bps)
unfolding apply_basis_points
levy-Ends {c} m bps (code, nat, fit) (rate_nat, rate_fit) =
    let (x, exact, e) =
      mul_div_round_exact m.minor bps (pos 10_000) half_up fit rate_fit (omega arith) (omega arith)
        tt in
    let rounded = rw (natural_abs m.minor nat, natural_abs bps rate_nat) at exact in
    rw (e, natural_sign m.minor bps nat rate_nat)
      (elim (Bool-cases (fits (pos x))) [
        | inl fit ↦ rw fit (returns _ ((code, refl, fits-IsInt64 (pos x) fit), rounded))
        | inr wide ↦ rw wide (fails _ tt)
      ])

-- A sum of natural amounts is natural, and is the exact sum.
pub sum-Ends :
    {c : Currency} (m : Money) (ms : List Money)
    → AreNatural c (m ∷ ms)
    → Ends IsForeseen
        (λ r. IsNatural c r × (r.minor ≡ total (m ∷ ms)))
        (wrap of_money (sum (m ∷ ms)))
sum-Ends {c} m ms h =
    let a = total (m ∷ ms) in
    rw (sum_exact m ms h) (elim (Bool-cases (fits a)) [
      | inl fit ↦ rw fit (returns _ ((refl, total_natural c (m ∷ ms) h, fits-IsInt64 a fit), refl))
      | inr wide ↦ rw wide (fails _ tt)
    ])

pub add-Ends :
    {c : Currency} (m o : Money)
    → IsNatural c m
    → IsNatural c o
    → Ends IsForeseen
        (λ r. IsNatural c r × (r.minor ≡ m.minor +ℤ o.minor))
        (wrap of_money (add m o))
add-Ends {c} m o (cm, nm, im) (co, natural, io) =
    let a = m.minor +ℤ o.minor in
    rw (add_exact m o im io, same_code_refl m.cur o.cur (co ∙ sym cm))
      (elim (Bool-cases (fits a)) [
        | inl fit ↦
            rw fit
              (returns _ ((cm, +ℤ_natural m.minor o.minor nm natural, fits-IsInt64 a fit), refl))
        | inr wide ↦ rw wide (fails _ tt)
      ])

-- A difference of `int64` amounts in one currency, the right one natural, is exact; it may be
-- negative.
abbrev pub IsAmount : Currency → Money → Type 0
IsAmount c m = (m.cur ≡ c) × IsInt64 m.minor

pub sub-Ends :
    {c : Currency} (m o : Money)
    → IsAmount c m
    → IsNatural c o
    → Ends IsForeseen (λ r. IsAmount c r × (r.minor ≡ m.minor -ℤ o.minor)) (wrap of_money (sub m o))
sub-Ends {c} m o (cm, im) (co, natural, io) =
    let a = m.minor -ℤ o.minor in
    let more : (o.minor ==ℤ min_int64) ≡ false = ground arith in
    rw (sub_exact m o im io, same_code_refl m.cur o.cur (co ∙ sym cm), more)
      (elim (Bool-cases (fits a)) [
        | inl fit ↦ rw fit (returns _ ((cm, fits-IsInt64 a fit), refl))
        | inr wide ↦ rw wide (fails _ tt)
      ])
