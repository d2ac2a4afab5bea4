-- ===== src/Orders/Refund.antt =====
-- internal/modules/orders/refund.go: the checks of `Refund`, and the entry of `postRefundLedger`.
use Prim.Native.String.{String, ◌++◌ as ◌^◌}
use text.Mathlib.Text.{◌==◌ as str_eq}
use mathlib.Core.List.{◌++◌}
use market_place.Prelude.{
  ℕ, ℤ, pos, Bool, true, false, not, ◌&&◌, if◌then◌else◌, ltb, ◌==◌, ◌==ℤ◌, ltb_ℤ, ◌-ℤ◌, Option,
  none, some, List, [], ◌∷◌, Result, ok, err, ◌>>=◌, ◌>>◌, refuse_if, wrap, add64,
}
use market_place.Money.Types.{
  Money, MoneyError, Currency, same_code, zero_of, is_zero, is_positive, is_negative, equal,
  half_up,
}
use market_place.Money.Arith.{add, sub, abs, mul_ratio, apply_basis_points, cmp}
use market_place.Ledger.Types.{Direction, debit, credit, Line, Entry}
use market_place.Ledger.Post.{is_empty}
use market_place.Orders.Types.{
  Status, paid, fulfilled, completed, partially_refunded, disputed, LineBreakdown, Order,
  RefundRequest, OrderError, order_not_found, not_refundable, item_required, item_not_found,
  sold_without_refund, already_downloaded, window_closed, case_by_case, refund_currency_mismatch,
  refund_not_positive, refund_too_large, refund_exceeds_paid, of_money, Accounts, account_by_code,
  seller_account,
}

-- `scaleToRefund`: component * refunded / lineTotal, rounded half up.
unfoldable pub scale_to_refund : (component refunded line_total : Money) → Result MoneyError Money
scale_to_refund component refunded line_total =
    if line_total.minor ==ℤ pos 0
    then ok (zero_of component.cur)
    else if equal refunded line_total
    then ok component
    else mul_ratio component refunded.minor line_total.minor half_up

-- The loop of `pickRefundLine`.
unfoldable pub find_line : String → List LineBreakdown → Result OrderError LineBreakdown
find_line item [] = err item_not_found
find_line item (l ∷ ls) = if str_eq l.item_public_id item then ok l else find_line item ls

abbrev only_line : List LineBreakdown → Result OrderError LineBreakdown
only_line (l ∷ []) = ok l
only_line _ = err item_required

-- `pickRefundLine`
unfoldable pub pick_refund_line : Order → String → Result OrderError LineBreakdown
pick_refund_line o item = if is_empty item then only_line o.lines else find_line item o.lines

-- 14 * 24 * time.Hour, in nanoseconds.
abbrev refund_window : ℤ
refund_window = pos 1_209_600_000_000_000

abbrev is_late : (now : ℤ) → Option ℤ → Bool
is_late now none = false
is_late now (some at) = ltb_ℤ refund_window (now -ℤ at)

-- The switch of `checkRefundEligibility` on the policy, the downloads and the moment of fulfilment.
unfoldable pub check_eligibility :
    (policy : String) (downloads : ℕ) (fulfilled_at : Option ℤ) (now : ℤ)
    → Result OrderError (Unit {0})
check_eligibility policy downloads fulfilled_at now =
    if str_eq policy "no_refund"
    then err sold_without_refund
    else if str_eq policy "no_refund_after_download"
    then refuse_if (ltb 0 downloads) already_downloaded
    else if str_eq policy "refundable_14_days"
    then refuse_if (is_late now fulfilled_at) window_closed
    else refuse_if (str_eq policy "case_by_case") case_by_case

-- The switch of `Refund` on the order's status.
unfoldable pub is_refundable : Status → Bool
is_refundable paid = true
is_refundable fulfilled = true
is_refundable completed = true
is_refundable partially_refunded = true
is_refundable disputed = true
is_refundable _ = false

-- `if cmp, _ := amount.Cmp(total); cmp > 0`: an error leaves `cmp` at 0.
abbrev is_more : Result MoneyError ℤ → Bool
is_more (ok c) = ltb_ℤ (pos 0) c
is_more (err _) = false

-- The amount that `Refund` takes: the request's, checked, or what was paid for the line.
unfoldable pub refund_amount : Order → LineBreakdown → Option Money → Result OrderError Money
refund_amount o line none = ok line.breakdown.buyer_total
refund_amount o line (some amount) = do
  refuse_if (not (same_code amount.cur o.currency)) refund_currency_mismatch
  refuse_if (not (is_positive amount)) refund_not_positive
  refuse_if (is_more (cmp amount line.breakdown.buyer_total)) refund_too_large
  ok amount

-- `alreadyRefunded+amount.Minor() > line.Breakdown.BuyerTotal.Minor()`
unfoldable pub check_remaining :
    (already : ℤ) → Money → LineBreakdown → Result OrderError (Unit {0})
check_remaining already amount line =
    refuse_if (ltb_ℤ line.breakdown.buyer_total.minor (add64 already amount.minor))
      refund_exceeds_paid

-- What `checkRefundEligibility` and `Refund` read of the line's row and its downloads.
pub record ItemRow : Type 0 where
  pub refund_policy : String
  pub downloads : ℕ
  pub fulfilled_at : Option ℤ
  pub refunded_minor : ℤ

-- `Refund` up to the request to the provider: the line and the amount to refund.
unfoldable pub admit_refund :
    RefundRequest
    → Order
    → (row_of : LineBreakdown → ItemRow) → (now : ℤ) → Result OrderError (LineBreakdown × Money)
admit_refund req o row_of now = do
  refuse_if (not req.actor_is_staff && not (o.buyer_id == req.requested_by)) order_not_found
  refuse_if (not (is_refundable o.status)) not_refundable
  line ← pick_refund_line o req.item_public_id
  (if req.actor_is_staff
      then ok tt
      else check_eligibility (row_of line).refund_policy (row_of line).downloads
          (row_of line).fulfilled_at now)
  amount ← refund_amount o line req.amount
  check_remaining (row_of line).refunded_minor amount line
  ok (line, amount)

abbrev or_zero : Currency → Result MoneyError Money → Money
or_zero c (ok m) = m
or_zero c (err _) = zero_of c

-- `retainedProcessingFee`; `money.MustNew` cannot panic on the currency of an order.
unfoldable pub retained_processing_fee : (psp_fee_bps : ℤ) → Order → Money → Option ℤ → Money
retained_processing_fee bps o amount (some fee) =
    if o.grand_total.minor ==ℤ pos 0
    then zero_of o.currency
    else or_zero o.currency (
        mul_ratio (record { minor = fee; cur = o.currency }) amount.minor o.grand_total.minor
          half_up)
retained_processing_fee bps o amount none =
    if o.grand_total.minor ==ℤ pos 0
    then zero_of o.currency
    else or_zero o.currency (do
      total ← apply_basis_points o.grand_total bps half_up
      mul_ratio total amount.minor o.grand_total.minor half_up)

-- `clearingAccountCode`, by the provider's name.
unfoldable pub clearing_account_code : String → String
clearing_account_code name =
    if str_eq name "razorpay_route"
    then "platform.clearing.razorpay"
    else if str_eq name "mor"
    then "platform.clearing.mor"
    else "platform.clearing.bridge"

-- `offsetAccountCode`, with `lower` as a parameter.
unfoldable pub offset_account_code : (lower : String → String) → Currency → String
offset_account_code lower cur =
    if str_eq cur "INR"
    then "platform.receivable.seller_offset"
    else "platform.receivable.seller_offset." ^ lower cur

-- The lines of the entry so far, and `allocated`.
abbrev pub Draft : Type 0
Draft = List Line × Money

abbrev pub line_of : Direction → ℕ → Money → String → Line
line_of d acct m memo = record { account_id = acct; direction = d; amount = m; memo = memo }

-- A share joins the lines and `allocated`.
unfoldable pub book :
    (acct : ℕ) → (share : Money) → (memo : String) → Draft → Result OrderError Draft
book acct share memo (lines, allocated) = do
  more ← wrap of_money (add allocated share)
  ok (lines ++ (line_of debit acct share memo ∷ []), more)

abbrev book_on :
    Result OrderError ℕ → (share : Money) → (memo : String) → Draft → Result OrderError Draft
book_on account share memo d = do acct ← account; book acct share memo d

-- The share of a component of the line, booked on its account unless it is 0.
unfoldable pub reverse_on :
    (account : Result OrderError ℕ)
    → (component : Money) → (memo : String) → (amount line_total : Money) → Draft
    → Result OrderError Draft
reverse_on account component memo amount line_total d = do
  share ← wrap of_money (scale_to_refund component amount line_total)
  if is_positive share then book_on account share memo d else ok d

-- The seller's share comes from the next settlement if it has been paid out.
unfoldable pub reverse_seller :
    Accounts
    → (lower : String → String) → Currency
    → LineBreakdown
    → (settled_away : Bool) → (amount : Money) → Draft
    → Result OrderError Draft
reverse_seller a lower cur line settled_away amount =
    if settled_away
    then reverse_on (account_by_code a (offset_account_code lower cur)) line.breakdown.seller_net
        "recoverable from the seller's next settlement" amount line.breakdown.buyer_total
    else reverse_on (seller_account a line.seller_id "payable" cur) line.breakdown.seller_net
        "seller share reversed before settlement" amount line.breakdown.buyer_total

-- The table of components, and the loop over it.
abbrev pub components : LineBreakdown → List (String × Money × String)
components line =
    ("platform.income.commission", line.breakdown.commission, "commission reversed")
    ∷ ("platform.payable.gst_output", line.breakdown.commission_gst, "GST on commission reversed")
    ∷ ("platform.payable.tcs", line.breakdown.tcs, "TCS reversed")
    ∷ ("platform.payable.tds_194o", line.breakdown.tds, "TDS reversed")
    ∷ []

unfoldable pub reverse_components :
    Accounts
    → (amount line_total : Money) → List (String × Money × String)
    → Draft
    → Result OrderError Draft
reverse_components a amount total [] d = ok d
reverse_components a amount total ((code, component, memo) ∷ cs) d = do
  next ← reverse_on (account_by_code a code) component memo amount total d
  reverse_components a amount total cs next

abbrev residue_memo : String
residue_memo = "rounding residue on a proportional refund, absorbed by the platform"

-- The platform's line for what the shares miss or exceed the amount by.
unfoldable pub residue_line : (acct : ℕ) → (residue : Money) → Result OrderError Line
residue_line acct residue =
    if is_negative residue
    then (do size ← wrap of_money (abs residue); ok (line_of credit acct size residue_memo))
    else ok (line_of debit acct residue residue_memo)

unfoldable pub absorb : Accounts → List Line → (residue : Money) → Result OrderError (List Line)
absorb a lines residue = if is_zero residue then ok lines else (do
  acct ← account_by_code a "platform.expense.refund_absorbed"
  last ← residue_line acct residue
  ok (lines ++ (last ∷ [])))

abbrev pub refund_header : Order → (refund_public_id : String) → (now : ℤ) → List Line → Entry
refund_header o refund_id now lines = record {
  kind = "refund";
  currency = o.currency;
  occurred_at = some now;
  description = "Refund on order " ^ o.number;
  reference_type = "order";
  reference_id = o.public_id;
  idempotency_key = "refund:" ^ refund_id;
  reverses_entry_id = none;
  lines = lines;
}

-- The entry that `postRefundLedger` hands to `Post`.
unfoldable pub refund_entry :
    Accounts
    → (lower : String → String) → (provider : String) → Order
    → LineBreakdown
    → (amount : Money) → (settled_away : Bool) → (refund_public_id : String) → (now : ℤ)
    → Result OrderError Entry
refund_entry a lower provider o line amount settled_away refund_id now = do
  clearing ← account_by_code a (clearing_account_code provider)
  after_seller ← reverse_seller a lower o.currency line settled_away amount ([], zero_of o.currency)
  (lines, allocated) ←
      reverse_components a amount line.breakdown.buyer_total (components line) after_seller
  residue ← wrap of_money (sub amount allocated)
  absorbed ← absorb a lines residue
  ok (
      refund_header o refund_id now
        (absorbed ++ (line_of credit clearing amount "returned to the buyer" ∷ [])))
