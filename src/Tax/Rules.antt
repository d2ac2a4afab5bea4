-- ===== src/Tax/Rules.antt =====
-- The rules of internal/modules/tax/tax.go: the checks of a policy, the place of supply, and the
-- levies on one line.
use text.Mathlib.Text.{◌==◌ as str_eq}
use market_place.Prelude.{
  ◌%◌, ℤ, pos, nat_abs, Bool, true, false, not, ◌&&◌, ◌||◌, if◌then◌else◌, ◌==◌, ltb_ℤ, leb_ℤ,
  ◌==ℤ◌, Result, ok, ◌>>=◌, ◌>>◌, refuse_if, wrap, add64, [], ◌∷◌,
}
use market_place.Money.Types.{Money, half_up, zero_of, is_valid}
use market_place.Money.Wide.{div64}
use market_place.Money.Arith.{apply_basis_points, sum}
use market_place.Tax.Types.{
  Policy, Seller, Buyer, SupplyKind, intra_state, inter_state, export_of_services, exempt,
  TdsReason, not_resident, no_pan, below_threshold, applies, TaxError, gst_out_of_range,
  commission_gst_out_of_range, tcs_out_of_range, tds_out_of_range, tds_no_pan_out_of_range,
  bad_state_code, bad_bearer, gst_odd, tcs_odd, unknown_currency_panic, of_money,
}

-- `x < lo || x > hi`
abbrev pub outside : ℤ → (lo hi : ℤ) → Bool
outside x lo hi = ltb_ℤ x lo || ltb_ℤ hi x

abbrev is_odd : ℤ → Bool
is_odd x = not (nat_abs x % 2 == 0)

-- `Policy.validate`
unfoldable pub validate : Policy → Result TaxError (Unit {0})
validate p = do
  refuse_if (outside p.gst_bps (pos 0) (pos 10_000)) gst_out_of_range
  refuse_if (outside p.commission_gst_bps (pos 0) (pos 10_000)) commission_gst_out_of_range
  refuse_if (outside p.tcs_bps (pos 0) (pos 10_000)) tcs_out_of_range
  refuse_if (outside p.tds_bps (pos 0) (pos 10_000)) tds_out_of_range
  refuse_if (outside p.tds_no_pan_bps (pos 0) (pos 10_000)) tds_no_pan_out_of_range
  refuse_if (outside p.platform_state_code (pos 1) (pos 99)) bad_state_code
  refuse_if (not (str_eq p.psp_fee_bearer "platform") && not (str_eq p.psp_fee_bearer "seller"))
      bad_bearer
  refuse_if (is_odd p.gst_bps) gst_odd
  refuse_if (is_odd p.tcs_bps) tcs_odd

-- `classify`
unfoldable pub classify : Seller → Buyer → SupplyKind
classify s b =
    if not s.gst_registered
    then exempt
    else if not (str_eq (if str_eq b.country "" then "IN" else b.country) "IN")
    then export_of_services
    else if ltb_ℤ (pos 0) s.state_code
        && ltb_ℤ (pos 0) b.state_code
        && s.state_code ==ℤ b.state_code
    then intra_state
    else inter_state

-- `belowThreshold`
unfoldable pub is_below_threshold : (fy_so_far this_sale threshold : ℤ) → Bool
is_below_threshold fy_so_far this_sale threshold =
    if ltb_ℤ fy_so_far (pos 0) || ltb_ℤ this_sale (pos 0)
    then false
    else if ltb_ℤ threshold fy_so_far
    then false
    else leb_ℤ (add64 fy_so_far this_sale) threshold

-- `ApplyBasisPoints` with `HalfUp`, its error passed on.
abbrev pub levy : Money → ℤ → Result TaxError Money
levy m bps = wrap of_money (apply_basis_points m bps half_up)

-- The GST on the seller's supply.
pub record Gst : Type 0 where
  pub cgst : Money
  pub sgst : Money
  pub igst : Money
  pub rate_bps : ℤ

-- Section 2 of `Compute`.
unfoldable pub charge_gst : Policy → SupplyKind → Money → Result TaxError Gst
charge_gst p exempt price =
    let zero = zero_of price.cur in
    ok (record { cgst = zero; sgst = zero; igst = zero; rate_bps = pos 0 })
charge_gst p export_of_services price =
    let zero = zero_of price.cur in
    ok (record { cgst = zero; sgst = zero; igst = zero; rate_bps = pos 0 })
charge_gst p intra_state price = do
  c ← levy price (div64 p.gst_bps (pos 2))
  ok (record { cgst = c; sgst = c; igst = zero_of price.cur; rate_bps = p.gst_bps })
charge_gst p inter_state price = do
  i ← levy price p.gst_bps
  ok (record { cgst = zero_of price.cur; sgst = zero_of price.cur; igst = i; rate_bps = p.gst_bps })

-- The tax collected at source.
pub record Tcs : Type 0 where
  pub cgst : Money
  pub sgst : Money
  pub igst : Money
  pub tcs : Money
  pub bps : ℤ

abbrev is_export : SupplyKind → Bool
is_export export_of_services = true
is_export _ = false

-- Section 4 of `Compute`: whether tax is collected at source.
unfoldable pub collects_tcs : Policy → Seller → SupplyKind → Bool
collects_tcs p s supply =
    if not s.gst_registered && not p.collect_tcs_from_unregistered_sellers
    then false
    else if is_export supply && not p.collect_tcs_on_exports
    then false
    else ltb_ℤ (pos 0) p.tcs_bps

-- The components by the place of supply.
unfoldable pub tcs_parts : Policy → SupplyKind → Money → Result TaxError (Money × Money × Money)
tcs_parts p intra_state price = do
  c ← levy price (div64 p.tcs_bps (pos 2))
  ok (c, c, zero_of price.cur)
tcs_parts p _ price = do i ← levy price p.tcs_bps; ok (zero_of price.cur, zero_of price.cur, i)

unfoldable pub due_tcs : Policy → SupplyKind → Money → Result TaxError Tcs
unfolding tcs_parts
due_tcs p supply price = do
  (c, g, i) ← tcs_parts p supply price
  t ← wrap of_money (sum (c ∷ g ∷ i ∷ []))
  ok (record { cgst = c; sgst = g; igst = i; tcs = t; bps = p.tcs_bps })

unfoldable pub collect_tcs : Policy → Seller → SupplyKind → Money → Result TaxError Tcs
unfolding due_tcs collects_tcs
collect_tcs p s supply price =
    let zero = zero_of price.cur in
    if collects_tcs p s supply
    then due_tcs p supply price
    else ok (record { cgst = zero; sgst = zero; igst = zero; tcs = zero; bps = pos 0 })

-- Section 5 of `Compute`: the rate of section 194-O and why it applies.
unfoldable pub tds_rate : Policy → Seller → Money → ℤ × TdsReason
unfolding is_below_threshold
tds_rate p s price =
    if not (str_eq s.country "") && not (str_eq s.country "IN")
    then (pos 0, not_resident)
    else if not s.has_pan
    then (p.tds_no_pan_bps, no_pan)
    else if s.resident_individual_or_huf
        && is_below_threshold s.fy_gross_supply_minor price.minor p.tds_threshold_minor
    then (pos 0, below_threshold)
    else (p.tds_bps, applies)

-- The text of the third case prints an amount made by `MustNew`, which panics on a currency that
-- the package does not know.
abbrev pub reason_panics : TdsReason → Money → Bool
reason_panics below_threshold price = not (is_valid price.cur)
reason_panics _ price = false

pub record Tds : Type 0 where
  pub tds : Money
  pub bps : ℤ
  pub reason : TdsReason

-- What follows the switch: the levy, where the rate is positive.
unfoldable pub levy_tds : (rate : ℤ) → TdsReason → Money → Result TaxError Tds
levy_tds rate reason price =
    if ltb_ℤ (pos 0) rate
    then (do tds ← levy price rate; ok (record { tds = tds; bps = rate; reason = reason }))
    else ok (record { tds = zero_of price.cur; bps = pos 0; reason = reason })

unfoldable pub deduct_tds : Policy → Seller → Money → Result TaxError Tds
unfolding tds_rate levy_tds
deduct_tds p s price =
    let (rate, reason) = tds_rate p s price in
    do refuse_if (reason_panics reason price) unknown_currency_panic; levy_tds rate reason price
