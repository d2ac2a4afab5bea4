-- ===== src/Orders/Payment/Handler.antt =====
-- The ways in which an order becomes paid: `ConfirmPayment` and `recordCapture` of
-- internal/modules/orders/confirm.go, `onPaymentCaptured` and `onPaymentFailed` of
-- internal/modules/orders/webhook.go. Each call is one transaction on one order's rows. The turnover,
-- the invoices and the counters of sales, the outbox and most audit records are left out.
use Prim.Native.String.{String}
use text.Mathlib.Text.{◌==◌ as str_eq}
use market_place.Prelude.{
  ℕ, ◌==◌, ℤ, Bool, true, false, not, ◌||◌, if◌then◌else◌, Option, none, some, List, [], ◌∷◌,
  Result, ok, err, ◌>>=◌, ◌>>◌, refuse_if, wrap,
}
use market_place.Money.Types.{Money, is_positive, equal}
use market_place.Ledger.Types.{Entry, Journal, Posted, LedgerError}
use market_place.Ledger.Post.{Faults, post}
use market_place.Orders.Types.{
  Status, awaiting_payment, payment_failed, paid, fulfilled, completed, LineBreakdown, Order,
  OrderError, of_ledger, Accounts, account_by_code,
}
use market_place.Orders.Machine.{transition, same_status}
use market_place.Orders.Refund.{clearing_account_code}
use market_place.Orders.Capture.{capture_entry, fee_entry, processing_cost}

-- `PaymentStatus` and `PaymentRecord`
pub data PaymentStatus : Type 0 where
  created authorized captured failed refunded : PaymentStatus

pub record PaymentRecord : Type 0 where
  pub payment_id : String
  pub intent_id : String
  pub amount : Money
  pub status : PaymentStatus
  pub fee : Option Money
  pub tax : Option Money

-- A row of `payments`, and what of one of `licenses` and `payment_transfers` is read here.
pub record PaymentRow : Type 0 where
  pub order_id : ℕ
  pub payment_id : String
  pub amount : Money

pub record License : Type 0 where
  pub item_id : ℕ
  pub user_id : ℕ
  pub product_id : ℕ

pub record TransferRow : Type 0 where
  pub item_id : ℕ
  pub seller_id : ℕ
  pub amount : Money

-- `reconciliation_differences`
pub data Difference : Type 0 where
  missing_in_ledger : PaymentRecord → Difference
  amount_mismatch : PaymentRecord → Difference

-- `payments` is the table, with the rows of other orders; `licenses` and `transfers` have the rows of the
-- order's items.
pub record Sale : Type 0 where
  pub order : Order
  pub intent_id : String
  pub payments : List PaymentRow
  pub journal : Journal
  pub licenses : List License
  pub transfers : List TransferRow
  pub differences : List Difference

-- Inserts that a row of the same key makes do nothing.
unfoldable pub has_payment : (payment : String) → List PaymentRow → Bool
has_payment payment [] = false
has_payment payment (p ∷ ps) = str_eq (p.payment_id) payment || has_payment payment ps

unfoldable pub insert_payment : (order : ℕ) → PaymentRecord → List PaymentRow → List PaymentRow
insert_payment order r ps =
    if has_payment (r.payment_id) ps
    then ps
    else (record { order_id = order; payment_id = r.payment_id; amount = r.amount } ∷ ps)

unfoldable pub has_license : (item : ℕ) → List License → Bool
has_license item [] = false
has_license item (l ∷ ls) = l.item_id == item || has_license item ls

-- One round of the loop of `issueLicenses`, and the loop.
unfoldable pub issue_one : (buyer : ℕ) → LineBreakdown → List License → List License
issue_one buyer l ls =
    if has_license (l.item_id) ls
    then ls
    else (record { item_id = l.item_id; user_id = buyer; product_id = l.product_id } ∷ ls)

unfoldable pub issue_licenses : (buyer : ℕ) → List LineBreakdown → List License → List License
issue_licenses buyer [] ls = ls
issue_licenses buyer (l ∷ lines) ls = issue_licenses buyer lines (issue_one buyer l ls)

unfoldable pub has_transfer : (item : ℕ) → List TransferRow → Bool
has_transfer item [] = false
has_transfer item (t ∷ ts) = t.item_id == item || has_transfer item ts

-- `recordTransfers`
unfoldable pub record_transfers : List LineBreakdown → List TransferRow → List TransferRow
record_transfers [] ts = ts
record_transfers (l ∷ lines) ts = record_transfers lines (
    if not (is_positive (l.breakdown.seller_net)) || has_transfer (l.item_id) ts
    then ts
    else (record { item_id = l.item_id; seller_id = l.seller_id; amount = l.breakdown.seller_net }
        ∷ ts))

-- What package ids, the clock and the configuration give to one call, and how the database fails.
pub record Context : Type 0 where
  pub now : ℤ
  pub capture_id : ℕ
  pub fee_id : ℕ
  pub public_id : String
  pub faults : Faults
  pub fee_bps : ℤ
  pub gst_bps : ℤ

abbrev written : Result LedgerError Posted × Journal → Result OrderError Journal
written (ok p, j) = ok j
written (err e, j) = err (of_ledger e)

-- The errors of the two ways.
pub data PaymentError : Type 0 where
  signature_invalid provider_failed wrong_buyer not_awaiting mismatch : PaymentError
  not_completed : PaymentStatus → PaymentError
  of_order : OrderError → PaymentError

module _ (a : Accounts) (provider : String) where
  abbrev post_fee : Context → Option Entry → Journal → Result OrderError Journal
  post_fee c none j = ok j
  post_fee c (some e) j = written (post (c.faults) (c.fee_id) (c.public_id) (c.now) e j)

  -- `postCaptureLedger`
  unfoldable pub post_capture_ledger :
      Context → Order → PaymentRecord → Journal → Result OrderError Journal
  post_capture_ledger c o r j = do
    e ← capture_entry a provider o (r.payment_id) (c.now)
    booked ← written (post (c.faults) (c.capture_id) (c.public_id) (c.now) e j)
    (fee, tax) ← processing_cost o (r.fee) (r.tax) (c.fee_bps) (c.gst_bps)
    clearing ← account_by_code a (clearing_account_code provider)
    cost ← fee_entry a provider o (r.payment_id) (c.now) clearing fee tax
    post_fee c cost booked

  -- `recordCapture`
  unfoldable pub record_capture : Context → PaymentRecord → Sale → Result OrderError Sale
  record_capture c r s = do
    journal ← post_capture_ledger c (s.order) r (s.journal)
    bought ← transition (s.order.status) (s.order.status) paid
    delivered ← transition bought paid fulfilled
    ok (record s {
      order = record (s.order) { status = delivered };
      payments = insert_payment (s.order.id) r (s.payments);
      journal = journal;
      licenses = issue_licenses (s.order.buyer_id) (s.order.lines) (s.licenses);
      transfers = record_transfers (s.order.lines) (s.transfers);
    })

  -- What the buyer's callback brings: whether its signature holds, what the provider then reports,
  -- and what it reports behind a capture.
  pub record Callback : Type 0 where
    pub buyer : Option ℕ
    pub is_valid : Bool
    pub reported : Option PaymentRecord
    pub after_capture : Option PaymentRecord

  abbrev pub is_other : Option ℕ → ℕ → Bool
  is_other none buyer = false
  is_other (some b) buyer = not (b == buyer)

  abbrev pub is_confirmed : Status → Bool
  is_confirmed s = same_status s paid || same_status s fulfilled || same_status s completed

  -- The record that is booked: of a payment that is only authorized, the one behind its capture.
  abbrev pub capture_of :
      Callback → PaymentRecord → PaymentStatus → Result PaymentError PaymentRecord
  capture_of b r captured = ok r
  capture_of b r authorized = elim (b.after_capture) [
    | none ↦ err provider_failed
    | some after ↦ ok after
  ]
  capture_of b r other = err (not_completed other)

  unfoldable pub confirm_record :
      Context → Callback → PaymentRecord → Sale → Result PaymentError Sale
  confirm_record c b r s =
      if is_other (b.buyer) (s.order.buyer_id)
      then err wrong_buyer
      else if is_confirmed (s.order.status)
      then ok s
      else (do
        refuse_if (not (same_status (s.order.status) awaiting_payment)) not_awaiting
        refuse_if (not (equal (r.amount) (s.order.grand_total))) mismatch
        final ← capture_of b r (r.status)
        wrap of_order (record_capture c final s))

  -- `ConfirmPayment`
  unfoldable pub confirm_payment : Context → Callback → Sale → Result PaymentError Sale
  confirm_payment c b s =
      if not (b.is_valid)
      then err signature_invalid
      else elim (b.reported) [ none ↦ err provider_failed | some r ↦ confirm_record c b r s ]

  abbrev pub is_captured : PaymentStatus → Bool
  is_captured captured = true
  is_captured _ = false

  -- The transaction of `onPaymentCaptured`, on what the provider reports.
  unfoldable pub capture_reported : Context → PaymentRecord → Sale → Result PaymentError Sale
  capture_reported c r s =
      if not (str_eq (s.intent_id) (r.intent_id))
      then ok (record s { differences = missing_in_ledger r ∷ s.differences })
      else if not (same_status (s.order.status) awaiting_payment)
      then ok s
      else if not (equal (r.amount) (s.order.grand_total))
      then ok (record s { differences = amount_mismatch r ∷ s.differences })
      else wrap of_order (record_capture c r s)

  -- `onPaymentCaptured`, of an event that names a payment, which the provider reports on or fails.
  unfoldable pub on_payment_captured :
      Context → (payment : String) → Option PaymentRecord → Sale → Result PaymentError Sale
  on_payment_captured c payment reported s = if str_eq payment "" then ok s else elim reported [
    | none ↦ err provider_failed
    | some r ↦ if not (is_captured (r.status)) then ok s else capture_reported c r s
  ]

  -- `onPaymentFailed`
  unfoldable pub on_payment_failed : (intent : String) → Sale → Result PaymentError Sale
  on_payment_failed intent s =
      if str_eq intent "" || not (str_eq (s.intent_id) intent)
      then ok s
      else if not (same_status (s.order.status) awaiting_payment)
      then ok s
      else (do
        after ← wrap of_order (transition (s.order.status) awaiting_payment payment_failed)
        ok (record s { order = record (s.order) { status = after } }))

  -- One call; an error leaves the rows as they were.
  pub data Call : Type 0 where
    callback : Context → Callback → Call
    capture : Context → (payment : String) → Option PaymentRecord → Call
    failure : (intent : String) → Call

  abbrev pub result_of : Call → Sale → Result PaymentError Sale
  result_of (callback c b) s = confirm_payment c b s
  result_of (capture c p reported) s = on_payment_captured c p reported s
  result_of (failure intent) s = on_payment_failed intent s

  abbrev pub kept : Sale → Result PaymentError Sale → Sale
  kept s (ok s') = s'
  kept s (err e) = s

  unfoldable pub run_calls : List Call → Sale → Sale
  run_calls [] s = s
  run_calls (x ∷ xs) s = run_calls xs (kept s (result_of x s))
