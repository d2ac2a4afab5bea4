-- ===== src/Tax/Tests.antt =====
-- A sale in the terms of internal/modules/tax/tax.go.
use market_place.Prelude.{
  ◌≡◌, refl, ℕ, pos, true, false, ok, arith, inl, Ends, ◌+ℤ◌, ◌-ℤ◌, ◌*ℤ◌, add64, sub64, neg64,
  mul64, wrap64,
}
use market_place.Money.Types.{Money}
use market_place.Tax.Types.{Policy, Seller, Buyer, Line, Breakdown, intra_state, applies}
use market_place.Tax.Rules.{
  validate, classify, is_below_threshold, charge_gst, collects_tcs, tcs_parts, due_tcs, collect_tcs,
  tds_rate, levy_tds, deduct_tds,
}
use market_place.Tax.Compute.{
  verify_each, distributed, verify, deduct, margin_of, finish, price_line, compute,
}
use market_place.Money.Wide.{
  to_u64, to_i64, abs_u64, narrow, mul_div_rem, bumps, away, resolve, mul_div_round, div64,
}
use market_place.Money.Arith.{add, sub, neg, sum, sum_from, mul_ratio, apply_basis_points}
use market_place.Tax.Levies.{IsForeseen}
use market_place.Tax.Verified.{IsBalanced}
use market_place.Tax.Correct.{IsLevied, compute-Ends}

abbrev rupees : ℕ → Money
rupees a = record { minor = pos a; cur = "INR" }

abbrev policy : Policy
policy = record {
  gst_bps = pos 1800;
  commission_gst_bps = pos 1800;
  tcs_bps = pos 100;
  tds_bps = pos 10;
  tds_no_pan_bps = pos 500;
  tds_threshold_minor = pos 50_000_000;
  platform_state_code = pos 29;
  collect_tcs_from_unregistered_sellers = false;
  collect_tcs_on_exports = false;
  platform_gstin = "29AAAAA0000A1Z5";
  psp_fee_bearer = "platform";
}

abbrev seller : Seller
seller = record {
  gst_registered = true;
  gstin = "29BBBBB0000B1Z5";
  state_code = pos 29;
  has_pan = true;
  resident_individual_or_huf = false;
  fy_gross_supply_minor = pos 0;
  country = "IN";
}

abbrev buyer : Buyer
buyer = record { country = "IN"; state_code = pos 29; gstin = ""; is_b2b = false }

abbrev line : Line
line = record {
  list_price = rupees 100_000;
  commission_bps = pos 1000;
  psp_fee_bps = pos 200;
  psp_fee_gst_bps = pos 1800;
}

compute-Ends_example :
    Ends IsForeseen
      (λ out. IsBalanced out × IsLevied policy seller buyer line out)
      (compute policy seller buyer line)
compute-Ends_example = compute-Ends policy seller buyer line (record {
  price = (omega arith, omega arith);
  fee = (refl, (omega arith, omega arith));
  fee_gst = (refl, (omega arith, omega arith));
})

abbrev priced : Breakdown
priced = record {
  currency = "INR";
  supply = intra_state;
  list_price = rupees 100_000;
  cgst = rupees 9000;
  sgst = rupees 9000;
  igst = rupees 0;
  tax_total = rupees 18_000;
  buyer_total = rupees 118_000;
  gst_rate_bps = pos 1800;
  commission_bps = pos 1000;
  commission = rupees 10_000;
  commission_gst = rupees 1800;
  commission_gst_bps = pos 1800;
  tcs_bps = pos 100;
  tcs_cgst = rupees 500;
  tcs_sgst = rupees 500;
  tcs_igst = rupees 0;
  tcs = rupees 1000;
  tds_bps = pos 10;
  tds = rupees 100;
  tds_reason = applies;
  psp_fee = rupees 2360;
  psp_fee_gst = rupees 425;
  psp_fee_borne = "platform";
  seller_net = rupees 105_100;
  platform_margin = rupees 7640;
}

priced-IsBalanced : IsBalanced priced
unfolding ◌+ℤ◌
priced-IsBalanced = record {
  natural = ground arith;
  taxed = refl;
  paid = refl;
  conserved = refl;
  halves = refl;
  one_gst = inl refl;
  one_tcs = inl refl;
}

compute-priced : compute policy seller buyer line ≡ ok priced
unfolding compute price_line validate classify is_below_threshold charge_gst collects_tcs tcs_parts
    due_tcs collect_tcs tds_rate levy_tds deduct_tds verify_each distributed verify deduct margin_of
    finish apply_basis_points mul_ratio mul_div_round mul_div_rem resolve bumps away narrow abs_u64
    to_u64 to_i64 div64 add sub neg sum sum_from add64 sub64 neg64 mul64 wrap64 ◌+ℤ◌ ◌-ℤ◌ ◌*ℤ◌
compute-priced = refl
