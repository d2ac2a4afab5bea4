-- ===== src/Orders/Amounts.antt =====
-- What the steps of a ledger entry give on amounts that are not negative, for any type of errors.
use market_place.Prelude.{
  ◌+◌, ◌^◌, ◌≤◌, ◌<◌, ◌≡◌, refl, sym, ◌∙◌, ◌==ℤ◌, min_int64, ℤ, pos, pos_part, neg_part, nat_abs,
  false, Bool-cases, inl, inr, arith, wrap, IsInt64, ◌+ℤ◌, ◌-ℤ◌, sign_laws, Ends, returns, fails,
}
use market_place.Money.Types.{Money, MoneyError, overflow, Currency, half_up, equal}
use market_place.Money.Exact.{fits, sign_of}
use market_place.Money.Round.{mul_div_round_exact}
use market_place.Money.Arith.{add, sub, mul_ratio}
use market_place.Money.Sums.{
  IsNatural, add_exact, sub_exact, same_code_refl, fits-IsInt64, +ℤ_natural,
}
use market_place.Orders.Refund.{scale_to_refund}

ratio_sign :
    (a b d : ℤ)
    → neg_part a ≡ 0
    → neg_part b ≡ 0
    → neg_part d ≡ 0
    → (d ==ℤ pos 0) ≡ false
    → (sign_of a b d ≡ false) × (0 < nat_abs d) × (nat_abs d ≡ pos_part d)
ratio_sign a b d ha hb hd h = ground arith

module _ {E : Type 0} (P : E → Type 0) (f : MoneyError → E) (foreseen : P (f overflow)) where
  pub add-IsNatural :
      {c : Currency} (m o : Money)
      → IsNatural c m
      → IsNatural c o
      → Ends P
          (λ r. IsNatural c r × (pos_part r.minor ≡ pos_part m.minor + pos_part o.minor))
          (wrap f (add m o))
  add-IsNatural {c} m o (cm, nm, im) (co, natural, io) =
      let a = m.minor +ℤ o.minor in
      let value : pos_part a ≡ pos_part m.minor + pos_part o.minor = omega sign_laws in
      rw (add_exact m o im io, same_code_refl m.cur o.cur (co ∙ sym cm))
        (elim (Bool-cases (fits a)) [
          | inl fit ↦
              rw fit
                (returns _ ((cm, +ℤ_natural m.minor o.minor nm natural, fits-IsInt64 a fit), value))
          | inr wide ↦ rw wide (fails _ foreseen)
        ])

  pub sub-IsNatural :
      {c : Currency} (m o : Money)
      → IsNatural c m
      → IsNatural c o
      → Ends P
          (λ r. (r.cur ≡ c) × IsInt64 r.minor × (r.minor ≡ m.minor -ℤ o.minor))
          (wrap f (sub m o))
  sub-IsNatural {c} m o (cm, nm, im) (co, natural, io) =
      let a = m.minor -ℤ o.minor in
      let more : (o.minor ==ℤ min_int64) ≡ false = ground arith in
      rw (sub_exact m o im io, same_code_refl m.cur o.cur (co ∙ sym cm), more)
        (elim (Bool-cases (fits a)) [
          | inl fit ↦ rw fit (returns _ (cm, fits-IsInt64 a fit, refl))
          | inr wide ↦ rw wide (fails _ foreseen)
        ])

  ratio-IsNatural :
      {c : Currency} (m : Money) (num den : ℤ)
      → IsNatural c m
      → (neg_part num ≡ 0) × IsInt64 num
      → (neg_part den ≡ 0) × (pos_part den ≤ 2 ^ 62)
      → (den ==ℤ pos 0) ≡ false
      → Ends P (IsNatural c) (wrap f (mul_ratio m num den half_up))
  unfolding mul_ratio
  ratio-IsNatural {c} m num den (cm, nm, im) (nn, fn) (nd, small) nonzero =
      let (sign, more, size) = ratio_sign m.minor num den nm nn nd nonzero in
      let (x, _, e) = mul_div_round_exact m.minor num den half_up im fn more (omega arith) tt in
      rw (nonzero, e, sign)
        (elim (Bool-cases (fits (pos x))) [
          | inl fit ↦ rw fit (returns _ (cm, refl, fits-IsInt64 (pos x) fit))
          | inr wide ↦ rw wide (fails _ foreseen)
        ])

  -- A scaled component is natural.
  pub scale-IsNatural :
      {c : Currency} (m amount total : Money)
      → IsNatural c m
      → IsNatural c amount
      → IsNatural c total
      → pos_part total.minor ≤ 2 ^ 62
      → Ends P (IsNatural c) (wrap f (scale_to_refund m amount total))
  unfolding scale_to_refund
  scale-IsNatural {c} m amount total hm (ca, na, ia) (ct, nt, it) small =
      elim (Bool-cases (total.minor ==ℤ pos 0)) [
        | inl none ↦ rw none (returns _ (hm.0, refl, (omega arith)))
        | inr some ↦ elim (Bool-cases (equal amount total)) [
          | inl full ↦ rw (some, full) (returns _ hm)
          | inr part ↦
              rw (some, part)
                (ratio-IsNatural m amount.minor total.minor hm (na, ia) (nt, small) some)
        ]
      ]
