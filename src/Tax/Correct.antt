-- ===== src/Tax/Correct.antt =====
-- `Compute` as a whole, on any policy, seller and buyer and any line in range.
use Prim.Native.String.{String}
use text.Mathlib.Text.{◌==◌ as str_eq}
use market_place.Prelude.{
  ap, ◌≡◌, refl, sym, ◌∙◌, pos, neg_part, false, Bool-cases, inl, inr, [], ◌∷◌, ◌>>=◌, ◌>>◌, arith,
  wrap, refuse_if, IsInt64, Ends, returns, bind-Ends, refuse-Ends, weaken-Ends,
}
use market_place.Money.Types.{Money, Currency, is_negative}
use market_place.Money.Arith.{add, sum}
use market_place.Money.Sums.{IsNatural, AreNatural}
use market_place.Tax.Types.{
  commission_out_of_range, of_money, Policy, Seller, Buyer, SupplyKind, intra_state, inter_state,
  export_of_services, exempt, Line, Breakdown,
}
use market_place.Tax.Rules.{
  outside, validate, classify, collects_tcs, levy, Gst, charge_gst, Tcs, collect_tcs, deduct_tds,
}
use market_place.Tax.Compute.{deduct, deductions, margin_of, finish, assemble, price_line, compute}
use market_place.Tax.Levies.{IsForeseen, IsRate, IsLevy, levy-Ends, sum-Ends, add-Ends, sub-Ends}
use market_place.Tax.Stages.{
  outside-IsBps, IsBps-IsRate, IsValidPolicy, validate-Ends, IsGst, charge_gst-Ends, IsCollected,
  IsTcs, collect_tcs-Ends, IsTds, deduct_tds-Ends, deduct-Ends,
}
use market_place.Tax.Verified.{IsExclusive, IsBalanced, verify_ok}

-- What the caller of `Compute` owes: values of the type, and provider rates that are not negative.
pub record IsInRange (l : Line) : Type 0 where
  pub price : IsInt64 l.list_price.minor
  pub fee : IsRate l.psp_fee_bps
  pub fee_gst : IsRate l.psp_fee_gst_bps

-- Every levy is its rate of the right amount, rounded to the nearest unit with a tie away from zero.
pub record IsLevied (p : Policy) (s : Seller) (b : Buyer) (l : Line) (out : Breakdown)
    : Type 0 where
  pub list : out.list_price ≡ l.list_price
  pub supplied : out.supply ≡ classify s b
  pub gst :
      IsGst p
        (classify s b)
        l.list_price
        (record { cgst = out.cgst; sgst = out.sgst; igst = out.igst; rate_bps = out.gst_rate_bps })
  pub commission : IsLevy l.list_price l.commission_bps out.commission
  pub commission_gst : IsLevy out.commission p.commission_gst_bps out.commission_gst
  pub tcs : IsCollected p s (classify s b) l.list_price (record {
    cgst = out.tcs_cgst;
    sgst = out.tcs_sgst;
    igst = out.tcs_igst;
    tcs = out.tcs;
    bps = out.tcs_bps;
  })
  pub tds :
      IsTds p s l.list_price (record { tds = out.tds; bps = out.tds_bps; reason = out.tds_reason })
  pub fee : IsLevy out.buyer_total l.psp_fee_bps out.psp_fee
  pub fee_gst : IsLevy out.psp_fee l.psp_fee_gst_bps out.psp_fee_gst

abbrev GstExclusive : Policy → SupplyKind → Money → Gst → Type 0
GstExclusive p k price g =
    IsGst p k price g → IsExclusive g.igst g.cgst g.sgst × (g.cgst.minor ≡ g.sgst.minor)

gst_exclusive : (p : Policy) (k : SupplyKind) (price : Money) (g : Gst) → GstExclusive p k price g
gst_exclusive p intra_state price g (e, same, zero, rate) =
    (inl zero, ap (λ (m : Money). m.minor) (sym same))
gst_exclusive p inter_state price g (e, c, s, rate) = (inr (c, s), c ∙ sym s)
gst_exclusive p export_of_services price g (i, c, s, rate) = (inl i, c ∙ sym s)
gst_exclusive p exempt price g (i, c, s, rate) = (inl i, c ∙ sym s)

margin-Ends :
    {c : Currency} (bearer : String) (commission fee : Money)
    → IsNatural c commission
    → IsNatural c fee
    → Ends IsForeseen (λ _. Unit) (margin_of bearer commission fee)
unfolding margin_of
margin-Ends bearer commission fee hc hf = elim (Bool-cases (str_eq bearer "platform")) [
  | inl platform ↦ rw platform (weaken-Ends (λ _ _. tt) (sub-Ends commission fee (hc.0, hc.2) hf))
  | inr seller ↦ rw seller (returns _ tt)
]

finish-Ends :
    (P : Breakdown → Type 0) (out : Breakdown)
    → IsBalanced out
    → P out
    → Ends IsForeseen (λ b. IsBalanced b × P b) (finish out)
unfolding finish
finish-Ends P out v h = rw (verify_ok out v) (returns out (v, h))

parts-IsExclusive :
    (p : Policy) (k : SupplyKind) (price : Money) (t : Tcs)
    → IsTcs p k price (t.cgst, t.sgst, t.igst)
    → IsExclusive t.igst t.cgst t.sgst
parts-IsExclusive p intra_state price t (e, same, zero) = inl zero
parts-IsExclusive p inter_state price t (e, c, s) = inr (c, s)
parts-IsExclusive p export_of_services price t (e, c, s) = inr (c, s)
parts-IsExclusive p exempt price t (e, c, s) = inr (c, s)

tcs-IsExclusive :
    (p : Policy) (s : Seller) (k : SupplyKind) (price : Money) (t : Tcs)
    → IsCollected p s k price t
    → IsExclusive t.igst t.cgst t.sgst
tcs-IsExclusive p s k price t h = elim (Bool-cases (collects_tcs p s k)) [
  | inl due ↦ parts-IsExclusive p k price t (rw due at h.1).0
  | inr free ↦ inl (rw free at h.1).1
]

not_negative : (m : Money) → IsInt64 m.minor → is_negative m ≡ false → neg_part m.minor ≡ 0
not_negative m h e = ground arith

-- The amounts of section 7, in the order of the code.
owed-natural :
    {c : Currency} (bearer : String) (a b d e f g : Money)
    → AreNatural c (a ∷ b ∷ d ∷ e ∷ f ∷ g ∷ [])
    → AreNatural c (deductions bearer a b d e f g)
owed-natural bearer a b d e f g (x, (y, (z, (w, (u, (v, t)))))) =
    elim (Bool-cases (str_eq bearer "seller")) [
      | inl seller ↦ rw seller (x, (y, (z, (w, (u, (v, tt))))))
      | inr platform ↦ rw platform (x, (y, (z, (w, tt))))
    ]

price_line-Ends :
    (p : Policy) (s : Seller) (b : Buyer) (l : Line)
    → IsValidPolicy p
    → IsNatural l.list_price.cur l.list_price
    → IsRate l.commission_bps
    → IsInRange l
    → Ends IsForeseen (λ out. IsBalanced out × IsLevied p s b l out) (price_line p s b l)
unfolding price_line
price_line-Ends p s b l v natural rate range =
    let price = l.list_price in
    let k = classify s b in
    bind-Ends (charge_gst p k price) (charge_gst-Ends p k price v natural)
      λ gst ((nc, ns, ni), is_gst).
        bind-Ends (wrap of_money (sum (gst.cgst ∷ gst.sgst ∷ gst.igst ∷ [])))
          (sum-Ends gst.cgst (gst.sgst ∷ gst.igst ∷ []) (nc, (ns, (ni, tt))))
          λ tax (ntax, taxed).
            bind-Ends (wrap of_money (add price tax)) (add-Ends price tax natural ntax)
              λ buyer (nbuyer, paid).
                bind-Ends (levy price l.commission_bps)
                  (levy-Ends price l.commission_bps natural rate)
                  λ cut (ncom, ecom).
                    bind-Ends (levy cut p.commission_gst_bps)
                      (levy-Ends cut p.commission_gst_bps ncom (IsBps-IsRate _ v.commission_gst))
                      λ cut_gst (ncg, ecg).
                        bind-Ends (collect_tcs p s k price) (collect_tcs-Ends p s k price v natural)
                          λ tcs ((n1, n2, n3, ntcs), is_tcs).
                            bind-Ends (deduct_tds p s price) (deduct_tds-Ends p s price v natural)
                              λ tds (ntds, is_tds).
                                bind-Ends (levy buyer l.psp_fee_bps)
                                  (levy-Ends buyer l.psp_fee_bps nbuyer range.fee)
                                  λ fee (nfee, efee).
                                    bind-Ends (levy fee l.psp_fee_gst_bps)
                                      (levy-Ends fee l.psp_fee_gst_bps nfee range.fee_gst)
                                      λ fee_gst (nfg, efg).
                                        let owed =
                                          deductions p.psp_fee_bearer cut cut_gst tcs.tcs tds.tds
                                            fee fee_gst in
                                        bind-Ends (deduct buyer owed)
                                          (deduct-Ends buyer owed (nbuyer.0, nbuyer.2)
                                            (owed-natural p.psp_fee_bearer cut cut_gst tcs.tcs
                                              tds.tds fee fee_gst
                                              (ncom, (ncg, (ntcs, (ntds, (nfee, (nfg, tt))))))))
                                          λ net ((code, inside), conserved).
                                            refuse-Ends (is_negative net) _
                                              (λ _. margin_of p.psp_fee_bearer cut fee >>= λ margin.
                                                finish (
                                                  assemble p l k gst tax buyer cut cut_gst tcs tds
                                                    fee fee_gst net margin))
                                              tt
                                              λ fine.
                                                bind-Ends (margin_of p.psp_fee_bearer cut fee)
                                                  (margin-Ends p.psp_fee_bearer cut fee ncom nfee)
                                                  λ margin _.
                                                    let nnet : IsNatural l.list_price.cur net = (
                                                      code,
                                                      not_negative net inside fine,
                                                      inside,
                                                    ) in
                                                    let (one_gst, halves) =
                                                      gst_exclusive p k price gst is_gst in
                                                    finish-Ends (IsLevied p s b l)
                                                      (assemble p l k gst tax buyer cut cut_gst tcs
                                                        tds fee fee_gst net margin)
                                                      (record {
                                                        natural = (
                                                          natural,
                                                          (
                                                            nc,
                                                            (
                                                            ns,
                                                            (
                                                            ni,
                                                            (
                                                            ntax,
                                                            (
                                                            nbuyer,
                                                            (
                                                            ncom,
                                                            (
                                                            ncg,
                                                            (
                                                            ntcs,
                                                            (ntds, (nfee, (nfg, (nnet, tt)))),
                                                            ),
                                                            ),
                                                            ),
                                                            ),
                                                            ),
                                                            ),
                                                            ),
                                                          ),
                                                        );
                                                        taxed = taxed;
                                                        paid = paid;
                                                        conserved = conserved;
                                                        halves = halves;
                                                        one_gst = one_gst;
                                                        one_tcs =
                                                            tcs-IsExclusive p s k price tcs is_tcs;
                                                      })
                                                      (record {
                                                        list = refl;
                                                        supplied = refl;
                                                        gst = is_gst;
                                                        commission = ecom;
                                                        commission_gst = ecg;
                                                        tcs = is_tcs;
                                                        tds = is_tds;
                                                        fee = efee;
                                                        fee_gst = efg;
                                                      })

-- For a line whose price is an `int64` and whose provider rates are not negative, `Compute` returns
-- either an error that does not come from `Verify`, or a breakdown that is balanced in exact
-- integers and whose every levy is exactly rounded: the closing call of `Verify` never fails.
pub compute-Ends :
    (p : Policy) (s : Seller) (b : Buyer) (l : Line)
    → IsInRange l
    → Ends IsForeseen (λ out. IsBalanced out × IsLevied p s b l out) (compute p s b l)
unfolding compute
compute-Ends p s b l range = bind-Ends (validate p) (validate-Ends p) λ _ v.
    refuse-Ends (is_negative l.list_price) _
      (λ _.
        refuse_if (outside l.commission_bps (pos 0) (pos 10_000)) commission_out_of_range
        >> price_line p s b l)
      tt
      λ positive.
        refuse-Ends (outside l.commission_bps (pos 0) (pos 10_000)) _ (λ _. price_line p s b l) tt
          λ inside.
            price_line-Ends p s b l v
              (refl, not_negative l.list_price range.price positive, range.price)
              (IsBps-IsRate _ (outside-IsBps _ inside)) range
