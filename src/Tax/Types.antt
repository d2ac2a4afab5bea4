-- ===== src/Tax/Types.antt =====
-- The types of internal/modules/tax/tax.go. The field `Explain`, a text for the reader of an invoice,
-- is left out; `TDSReason` is kept as the case that the text stands for.
use Prim.Native.String.{String}
use market_place.Prelude.{ℤ, Bool}
use market_place.Money.Types.{MoneyError, Money, Currency}

-- The rates are in basis points; rates, thresholds and state codes are `int64` or `int`.
pub record Policy : Type 0 where
  pub gst_bps : ℤ
  pub commission_gst_bps : ℤ
  pub tcs_bps : ℤ
  pub tds_bps : ℤ
  pub tds_no_pan_bps : ℤ
  pub tds_threshold_minor : ℤ
  pub platform_state_code : ℤ
  pub collect_tcs_from_unregistered_sellers : Bool
  pub collect_tcs_on_exports : Bool
  pub platform_gstin : String
  pub psp_fee_bearer : String

pub record Seller : Type 0 where
  pub gst_registered : Bool
  pub gstin : String
  pub state_code : ℤ
  pub has_pan : Bool
  pub resident_individual_or_huf : Bool
  pub fy_gross_supply_minor : ℤ
  pub country : String

pub record Buyer : Type 0 where
  pub country : String
  pub state_code : ℤ
  pub gstin : String
  pub is_b2b : Bool

pub record Line : Type 0 where
  pub list_price : Money
  pub commission_bps : ℤ
  pub psp_fee_bps : ℤ
  pub psp_fee_gst_bps : ℤ

pub data SupplyKind : Type 0 where
  intra_state inter_state export_of_services exempt : SupplyKind

-- Which case of section 194-O applied.
pub data TdsReason : Type 0 where
  not_resident no_pan below_threshold applies : TdsReason

pub record Breakdown : Type 0 where
  pub currency : Currency
  pub supply : SupplyKind
  pub list_price : Money
  pub cgst : Money
  pub sgst : Money
  pub igst : Money
  pub tax_total : Money
  pub buyer_total : Money
  pub gst_rate_bps : ℤ
  pub commission_bps : ℤ
  pub commission : Money
  pub commission_gst : Money
  pub commission_gst_bps : ℤ
  pub tcs_bps : ℤ
  pub tcs_cgst : Money
  pub tcs_sgst : Money
  pub tcs_igst : Money
  pub tcs : Money
  pub tds_bps : ℤ
  pub tds : Money
  pub tds_reason : TdsReason
  pub psp_fee : Money
  pub psp_fee_gst : Money
  pub psp_fee_borne : String
  pub seller_net : Money
  pub platform_margin : Money

-- What `Verify` reports.
pub data VerifyError : Type 0 where
  tax_mismatch total_mismatch not_conserved halves_differ both_gst both_tcs : VerifyError
  negative_amount foreign_currency : VerifyError
  bad_sum : MoneyError → VerifyError

-- The errors of the package. `unknown_currency_panic` is the panic of `money.MustNew`.
pub data TaxError : Type 0 where
  gst_out_of_range commission_gst_out_of_range tcs_out_of_range tds_out_of_range : TaxError
  tds_no_pan_out_of_range bad_state_code bad_bearer gst_odd tcs_odd : TaxError
  negative_price commission_out_of_range deductions_exceed_payment : TaxError
  unknown_currency_panic : TaxError
  of_money : MoneyError → TaxError
  of_verify : VerifyError → TaxError
