-- ===== src/Tax/Compute.antt =====
-- `Compute` and `Verify` of internal/modules/tax/tax.go.
use Prim.Native.String.{String}
use text.Mathlib.Text.{◌==◌ as str_eq}
use market_place.Prelude.{
  pos, not, ◌&&◌, ◌||◌, if◌then◌else◌, ◌==ℤ◌, Result, ok, ◌>>=◌, ◌>>◌, refuse_if, wrap, List, [],
  ◌∷◌,
}
use market_place.Money.Types.{Money, equal, is_negative, is_positive, same_code, Currency}
use market_place.Money.Arith.{add, sub, sum}
use market_place.Tax.Types.{
  Policy, Seller, Buyer, SupplyKind, Line, Breakdown, VerifyError, tax_mismatch, total_mismatch,
  not_conserved, halves_differ, both_gst, both_tcs, negative_amount, foreign_currency, bad_sum,
  TaxError, negative_price, commission_out_of_range, deductions_exceed_payment, of_money, of_verify,
}
use market_place.Tax.Rules.{
  outside, validate, classify, levy, Gst, charge_gst, Tcs, collect_tcs, Tds, deduct_tds,
}

-- The last loop of `Verify`.
unfoldable pub verify_each : Currency → List Money → Result VerifyError (Unit {0})
verify_each c [] = ok tt
verify_each c (m ∷ ms) = do
  refuse_if (is_negative m) negative_amount
  refuse_if (not (same_code m.cur c)) foreign_currency
  verify_each c ms

-- The amounts that the last loop of `Verify` goes through.
abbrev pub amounts : Breakdown → List Money
amounts b =
    b.list_price ∷ b.cgst ∷ b.sgst ∷ b.igst ∷ b.tax_total ∷ b.buyer_total ∷ b.commission
    ∷ b.commission_gst ∷ b.tcs ∷ b.tds ∷ b.psp_fee ∷ b.psp_fee_gst ∷ b.seller_net ∷ []

-- The middle of `Verify`: what has been paid out of the buyer's payment.
unfoldable pub distributed : Breakdown → Result VerifyError Money
distributed b = do
  d ← wrap bad_sum (sum (b.seller_net ∷ b.commission ∷ b.commission_gst ∷ b.tcs ∷ b.tds ∷ []))
  (if str_eq b.psp_fee_borne "seller"
      then wrap bad_sum (sum (d ∷ b.psp_fee ∷ b.psp_fee_gst ∷ []))
      else ok d)

-- `Verify`
unfoldable pub verify : Breakdown → Result VerifyError (Unit {0})
unfolding verify_each distributed
verify b = do
  tax_sum ← wrap bad_sum (sum (b.cgst ∷ b.sgst ∷ b.igst ∷ []))
  refuse_if (not (equal tax_sum b.tax_total)) tax_mismatch
  gross ← wrap bad_sum (add b.list_price b.tax_total)
  refuse_if (not (equal gross b.buyer_total)) total_mismatch
  d ← distributed b
  refuse_if (not (equal d b.buyer_total)) not_conserved
  refuse_if (not (b.cgst.minor ==ℤ b.sgst.minor)) halves_differ
  refuse_if (is_positive b.igst && (is_positive b.cgst || is_positive b.sgst)) both_gst
  refuse_if (is_positive b.tcs_igst && (is_positive b.tcs_cgst || is_positive b.tcs_sgst)) both_tcs
  verify_each b.currency (amounts b)

-- The loop of section 7 of `Compute`: the deductions, one after the other.
unfoldable pub deduct : Money → List Money → Result TaxError Money
deduct net [] = ok net
deduct net (d ∷ ds) = do left ← wrap of_money (sub net d); deduct left ds

-- What section 7 subtracts from the buyer's payment.
abbrev pub deductions : (bearer : String) → (c cg tcs tds fee fee_gst : Money) → List Money
deductions bearer c cg tcs tds fee fee_gst =
    c ∷ cg ∷ tcs ∷ tds ∷ (if str_eq bearer "seller" then fee ∷ fee_gst ∷ [] else [])

-- `if net.IsNegative() { … }` and the margin.
unfoldable pub margin_of : (bearer : String) → (commission fee : Money) → Result TaxError Money
margin_of bearer commission fee =
    if str_eq bearer "platform" then wrap of_money (sub commission fee) else ok commission

-- The end of `Compute`: the breakdown leaves only through `Verify`.
unfoldable pub finish : Breakdown → Result TaxError Breakdown
finish out = do wrap of_verify (verify out); ok out

-- The fields of `out`, as the sections of `Compute` fill them.
abbrev pub assemble :
    Policy
    → Line
    → SupplyKind
    → Gst
    → (tax_total buyer_total commission commission_gst : Money) → Tcs
    → Tds
    → (psp_fee psp_fee_gst net margin : Money) → Breakdown
assemble p l supply gst tax_total buyer_total commission commission_gst tcs tds fee fee_gst net
      margin =
    record {
      currency = l.list_price.cur;
      supply = supply;
      list_price = l.list_price;
      cgst = gst.cgst;
      sgst = gst.sgst;
      igst = gst.igst;
      tax_total = tax_total;
      buyer_total = buyer_total;
      gst_rate_bps = gst.rate_bps;
      commission_bps = l.commission_bps;
      commission = commission;
      commission_gst = commission_gst;
      commission_gst_bps = p.commission_gst_bps;
      tcs_bps = tcs.bps;
      tcs_cgst = tcs.cgst;
      tcs_sgst = tcs.sgst;
      tcs_igst = tcs.igst;
      tcs = tcs.tcs;
      tds_bps = tds.bps;
      tds = tds.tds;
      tds_reason = tds.reason;
      psp_fee = fee;
      psp_fee_gst = fee_gst;
      psp_fee_borne = p.psp_fee_bearer;
      seller_net = net;
      platform_margin = margin;
    }

-- Sections 1 to 7 of `Compute` behind its checks; `at` is not used by it.
unfoldable pub price_line : Policy → Seller → Buyer → Line → Result TaxError Breakdown
unfolding deduct margin_of finish
price_line p s b l = do
  let price = l.list_price
  let supply = classify s b
  gst ← charge_gst p supply price
  tax_total ← wrap of_money (sum (gst.cgst ∷ gst.sgst ∷ gst.igst ∷ []))
  buyer_total ← wrap of_money (add price tax_total)
  commission ← levy price l.commission_bps
  commission_gst ← levy commission p.commission_gst_bps
  tcs ← collect_tcs p s supply price
  tds ← deduct_tds p s price
  fee ← levy buyer_total l.psp_fee_bps
  fee_gst ← levy fee l.psp_fee_gst_bps
  net ←
      deduct buyer_total
        (deductions p.psp_fee_bearer commission commission_gst tcs.tcs tds.tds fee fee_gst)
  refuse_if (is_negative net) deductions_exceed_payment
  margin ← margin_of p.psp_fee_bearer commission fee
  finish (
      assemble p l supply gst tax_total buyer_total commission commission_gst tcs tds fee fee_gst
        net margin)

-- `Compute`
unfoldable pub compute : Policy → Seller → Buyer → Line → Result TaxError Breakdown
unfolding price_line
compute p s b l = do
  validate p
  refuse_if (is_negative l.list_price) negative_price
  refuse_if (outside l.commission_bps (pos 0) (pos 10_000)) commission_out_of_range
  price_line p s b l
