-- ===== src/Orders/Capture.antt =====
-- internal/modules/orders/confirm.go: the two entries of `postCaptureLedger`, and
-- `splitCommissionGST`.
use Prim.Native.String.{String, ◌++◌ as ◌⧺◌}
use mathlib.Core.List.{◌++◌}
use market_place.Prelude.{
  ℕ, ℤ, pos, Bool, false, not, ◌&&◌, if◌then◌else◌, ltb_ℤ, ◌==ℤ◌, Option, none, some, List, [], ◌∷◌,
  Result, ok, err, ◌>>=◌, wrap,
}
use market_place.Money.Types.{Money, MoneyError, Currency, zero_of, is_positive, half_up, down}
use market_place.Money.Arith.{add, sub, mul_ratio, apply_basis_points}
use market_place.Ledger.Types.{debit, credit, Line, Entry}
use market_place.Orders.Types.{
  LineBreakdown, Order, OrderError, of_money, Accounts, account_by_code, seller_account,
}
use market_place.Orders.Refund.{line_of, clearing_account_code}

-- The four running totals of the loop over the order's lines.
pub record Totals : Type 0 where
  pub commission : Money
  pub commission_gst : Money
  pub tcs : Money
  pub tds : Money

abbrev pub no_totals : Currency → Totals
no_totals c = record {
  commission = zero_of c;
  commission_gst = zero_of c;
  tcs = zero_of c;
  tds = zero_of c;
}

-- A credit joins the lines if it is positive.
unfoldable pub credit_if : ℕ → Money → String → List Line → List Line
credit_if acct m memo lines =
    if is_positive m then lines ++ (line_of credit acct m memo ∷ []) else lines

unfoldable pub add_totals : Totals → LineBreakdown → Result OrderError Totals
add_totals t l = do
  commission ← wrap of_money (add t.commission l.breakdown.commission)
  gst ← wrap of_money (add t.commission_gst l.breakdown.commission_gst)
  tcs ← wrap of_money (add t.tcs l.breakdown.tcs)
  tds ← wrap of_money (add t.tds l.breakdown.tds)
  ok (record { commission = commission; commission_gst = gst; tcs = tcs; tds = tds })

-- The loop over the order's lines.
unfoldable pub credit_sellers :
    Accounts
    → Currency
    → List LineBreakdown
    → List Line × Totals
    → Result OrderError (List Line × Totals)
credit_sellers a c [] d = ok d
credit_sellers a c (l ∷ ls) (lines, t) = do
  payable ← seller_account a l.seller_id "payable" c
  next ← add_totals t l
  credit_sellers a c ls (
    credit_if payable l.breakdown.seller_net ("net due to seller for " ⧺ l.item_public_id) lines,
    next,
  )

-- The loop over the four totals.
abbrev pub credit_totals : (commission gst_output tcs tds : ℕ) → Totals → List Line → List Line
credit_totals commission gst_output tcs tds t lines =
    credit_if tds t.tds "TDS deducted under s.194-O" (
      credit_if tcs t.tcs "TCS collected under s.52 CGST" (
        credit_if gst_output t.commission_gst "GST on commission"
          (credit_if commission t.commission "platform commission" lines)))

abbrev pub order_entry : (kind description key : String) → Order → (now : ℤ) → List Line → Entry
order_entry kind description key o now lines = record {
  kind = kind;
  currency = o.currency;
  occurred_at = some now;
  description = description ⧺ o.number;
  reference_type = "order";
  reference_id = o.public_id;
  idempotency_key = key;
  reverses_entry_id = none;
  lines = lines;
}

-- The entry that distributes what the buyer paid.
unfoldable pub capture_entry :
    Accounts
    → (provider : String) → Order
    → (provider_payment_id : String) → (now : ℤ) → Result OrderError Entry
capture_entry a provider o payment now = do
  clearing ← account_by_code a (clearing_account_code provider)
  commission ← account_by_code a "platform.income.commission"
  gst_output ← account_by_code a "platform.payable.gst_output"
  tcs ← account_by_code a "platform.payable.tcs"
  tds ← account_by_code a "platform.payable.tds_194o"
  (lines, totals) ← credit_sellers a o.currency o.lines (
    line_of debit clearing o.grand_total ("captured for order " ⧺ o.number) ∷ [],
    no_totals o.currency,
  )
  ok (
      order_entry "order_capture" "Capture for order "
        ("capture:" ⧺ (o.public_id ⧺ (":" ⧺ payment))) o now
        (credit_totals commission gst_output tcs tds totals lines))

-- An amount that the provider reports, or the configured rate of a base.
abbrev pub reported_or : Option Money → (base : Money) → (bps : ℤ) → Result OrderError Money
reported_or (some m) base bps = ok m
reported_or none base bps = wrap of_money (apply_basis_points base bps half_up)

abbrev debit_if : ℕ → Money → String → List Line
debit_if acct m memo = if is_positive m then line_of debit acct m memo ∷ [] else []

unfoldable pub fee_lines : (expense input_credit clearing : ℕ) → (fee tax total : Money) → List Line
fee_lines expense input_credit clearing fee tax total =
    debit_if expense fee "provider processing fee"
    ++ (debit_if input_credit tax "GST input credit on processing fee"
        ++ (line_of credit clearing total "deducted by provider" ∷ []))

-- The entry of the processing cost; there is none if the fee and its tax are not positive.
unfoldable pub fee_entry :
    Accounts
    → (provider : String) → Order
    → (provider_payment_id : String) → (now : ℤ) → (clearing : ℕ) → (fee tax : Money)
    → Result OrderError (Option Entry)
fee_entry a provider o payment now clearing fee tax =
    if not (is_positive fee) && not (is_positive tax) then ok none else (do
      expense ← account_by_code a "platform.expense.psp_fee"
      input_credit ← account_by_code a "platform.input_credit.gst"
      total ← wrap of_money (add fee tax)
      ok (
          some (
            order_entry "psp_fee" "Processing fee for order "
              ("psp_fee:" ⧺ (o.public_id ⧺ (":" ⧺ payment))) o now
              (fee_lines expense input_credit clearing fee tax total))))

-- The fee and its tax, as reported or as configured.
unfoldable pub processing_cost :
    Order → (fee tax : Option Money) → (fee_bps gst_bps : ℤ) → Result OrderError (Money × Money)
processing_cost o fee tax fee_bps gst_bps = do
  amount ← reported_or fee o.grand_total fee_bps
  gst ← reported_or tax amount gst_bps
  ok (amount, gst)

-- The larger share comes first.
abbrev pub ordered : (half rest zero : Money) → Money × Money × Money
ordered half rest zero =
    if ltb_ℤ half.minor rest.minor then (rest, half, zero) else (half, rest, zero)

abbrev pub halves : Money → Result MoneyError Money → Money × Money × Money
halves gst (err _) = (zero_of gst.cur, zero_of gst.cur, gst)
halves gst (ok half) = elim (sub gst half) [
  | err _ ↦ (zero_of gst.cur, zero_of gst.cur, gst)
  | ok rest ↦ ordered half rest (zero_of gst.cur)
]

abbrev pub is_state : ℤ → Option ℤ → Bool
is_state platform none = false
is_state platform (some seller) = seller ==ℤ platform

-- `splitCommissionGST`: CGST, SGST and IGST.
unfoldable pub split_commission_gst :
    Money → (platform_state : ℤ) → (seller_state : Option ℤ) → Money × Money × Money
split_commission_gst gst platform seller =
    if is_state platform seller
    then halves gst (mul_ratio gst (pos 1) (pos 2) down)
    else (zero_of gst.cur, zero_of gst.cur, gst)
