-- ===== src/Tax/Verified.antt =====
-- `Verify` accepts every breakdown that is balanced in exact integers.
use text.Mathlib.Text.{◌==◌ as str_eq}
use market_place.Prelude.{
  ap, ◌≡◌, refl, sym, ◌∙◌, ℤ, pos, pos_part, neg_part, true, false, ◌&&◌, ◌||◌, ltb_ℤ, ◌==ℤ◌,
  Bool-cases, ◌⊎◌, inl, inr, List, [], ◌∷◌, ok, arith, IsInt64, ◌+ℤ◌, int_laws, sign_laws,
}
use market_place.Money.Types.{Money, Currency, is_positive, equal}
use market_place.Money.Arith.{sum}
use market_place.Money.Sums.{
  IsNatural, AreNatural, total, add_exact, sum_exact, same_code_refl, IsInt64-fits, total_natural,
}
use market_place.Tax.Types.{Breakdown}
use market_place.Tax.Compute.{verify, verify_each, amounts, distributed, deductions}

-- One of two components is 0.
abbrev pub IsExclusive : (whole half other_half : Money) → Type 0
IsExclusive i c s = (i.minor ≡ pos 0) ⊎ ((c.minor ≡ pos 0) × (s.minor ≡ pos 0))

-- The breakdown adds up in exact integers, and no amount is negative or in another currency.
pub record IsBalanced (b : Breakdown) : Type 0 where
  pub natural : AreNatural b.currency (amounts b)
  pub taxed : b.tax_total.minor ≡ total (b.cgst ∷ b.sgst ∷ b.igst ∷ [])
  pub paid : b.buyer_total.minor ≡ b.list_price.minor +ℤ b.tax_total.minor
  pub conserved :
      b.seller_net.minor
        +ℤ total (
            deductions b.psp_fee_borne b.commission b.commission_gst b.tcs b.tds b.psp_fee
              b.psp_fee_gst)
      ≡ b.buyer_total.minor
  pub halves : b.cgst.minor ≡ b.sgst.minor
  pub one_gst : IsExclusive b.igst b.cgst b.sgst
  pub one_tcs : IsExclusive b.tcs_igst b.tcs_cgst b.tcs_sgst

sum_ok :
    {c : Currency} (m : Money) (ms : List Money) (t : ℤ)
    → AreNatural c (m ∷ ms)
    → total (m ∷ ms) ≡ t
    → IsInt64 t
    → sum (m ∷ ms) ≡ ok (record { minor = t; cur = c })
sum_ok m ms t h e fit = rw (sum_exact m ms h, e, IsInt64-fits t fit)

equal_lem :
    {c : Currency} (m : Money) (a : ℤ)
    → IsNatural c m
    → m.minor ≡ a
    → equal (record { minor = a; cur = c }) m ≡ true
equal_lem {c} m a h e =
    let same : (a ==ℤ m.minor) ≡ true = rw e (ground arith) in rw (same_code_refl c m.cur h.0, same)

verify_each_ok : (c : Currency) (ms : List Money) → AreNatural c ms → verify_each c ms ≡ ok tt
unfolding verify_each
verify_each_ok c [] h = refl
verify_each_ok c (m ∷ ms) ((code, nat, fit), t) =
    let natural : ltb_ℤ m.minor (pos 0) ≡ false = ground arith in
    rw (natural, same_code_refl m.cur c (sym code)) (verify_each_ok c ms t)

exclusive_lem :
    (i c s : Money)
    → IsExclusive i c s
    → (is_positive i && (is_positive c || is_positive s)) ≡ false
exclusive_lem i c s (inl e) = rw e
exclusive_lem i c s (inr (e, f)) = rw (e, f) (ground arith)

bounded : (t x y : ℤ) → neg_part t ≡ 0 → neg_part x ≡ 0 → IsInt64 y → t +ℤ x ≡ y → IsInt64 t
bounded t x y ht hx hy e = omega (sign_laws, ap pos_part e, ap neg_part e)

module _ (b : Breakdown) (v : IsBalanced b) where
  abbrev c : Currency
  c = b.currency

  abbrev kept : List Money
  kept = b.commission ∷ b.commission_gst ∷ b.tcs ∷ b.tds ∷ []

  abbrev fees : List Money
  fees = b.psp_fee ∷ b.psp_fee_gst ∷ []

  -- The seller's share, the commission and the levies.
  abbrev shares : ℤ
  shares = total (b.seller_net ∷ kept)

  shares-natural : AreNatural c (b.seller_net ∷ kept)
  shares-natural =
      let n = v.natural.1.1.1.1.1.1 in (n.1.1.1.1.1.1.0, (n.0, (n.1.0, (n.1.1.0, (n.1.1.1.0, tt)))))

  buyer-IsNatural : IsNatural c b.buyer_total
  buyer-IsNatural = v.natural.1.1.1.1.1.0

  fees-natural : AreNatural c fees
  fees-natural = let n = v.natural.1.1.1.1.1.1.1.1.1.1 in (n.0, (n.1.0, tt))

  distributed_ok : distributed b ≡ ok (record { minor = b.buyer_total.minor; cur = c })
  unfolding distributed
  distributed_ok = elim (Bool-cases (str_eq b.psp_fee_borne "seller")) [
    | inl seller ↦
        let owed = rw seller at v.conserved in
        let split : shares +ℤ total fees ≡ b.buyer_total.minor =
          omega (int_laws, ap pos_part owed, ap neg_part owed) in
        let inside : IsInt64 shares =
          bounded shares (total fees) b.buyer_total.minor
            (total_natural c (b.seller_net ∷ kept) shares-natural)
            (total_natural c fees fees-natural) buyer-IsNatural.2 split in
        let d : Money = record { minor = shares; cur = c } in
        let d-natural : IsNatural c d =
          (refl, total_natural c (b.seller_net ∷ kept) shares-natural, inside) in
        rw (
          seller,
          sum_ok b.seller_net kept shares shares-natural refl inside,
          sum_ok d fees b.buyer_total.minor (d-natural, fees-natural) split buyer-IsNatural.2,
        )
    | inr platform ↦
        let owed = rw platform at v.conserved in
        rw (
          platform,
          sum_ok b.seller_net kept b.buyer_total.minor shares-natural owed buyer-IsNatural.2,
        )
  ]

  -- `Verify` accepts every breakdown that is balanced in exact integers: natural amounts in its
  -- currency, sums that hold, equal halves of GST, and no mixture of integrated tax with the halves.
  pub verify_ok : verify b ≡ ok tt
  unfolding verify
  verify_ok =
      let n = v.natural in
      let tax : IsNatural c b.tax_total = n.1.1.1.1.0 in
      let halves : (b.cgst.minor ==ℤ b.sgst.minor) ≡ true = rw v.halves (ground arith) in
      rw
        (
          sum_ok b.cgst (b.sgst ∷ b.igst ∷ []) b.tax_total.minor (n.1.0, (n.1.1.0, (n.1.1.1.0, tt)))
              (sym v.taxed) tax.2,
          equal_lem b.tax_total b.tax_total.minor tax refl,
          add_exact b.list_price b.tax_total n.0.2 tax.2,
          same_code_refl b.list_price.cur b.tax_total.cur (tax.0 ∙ sym n.0.0),
          ← v.paid,
          IsInt64-fits b.buyer_total.minor buyer-IsNatural.2,
          equal_lem b.buyer_total b.buyer_total.minor
              (buyer-IsNatural.0 ∙ sym n.0.0, buyer-IsNatural.1, buyer-IsNatural.2) refl,
          distributed_ok,
          equal_lem b.buyer_total b.buyer_total.minor buyer-IsNatural refl,
          halves,
          exclusive_lem b.igst b.cgst b.sgst v.one_gst,
          exclusive_lem b.tcs_igst b.tcs_cgst b.tcs_sgst v.one_tcs,
        )
        (verify_each_ok b.currency (amounts b) n)
