-- ===== src/Orders/Payment/Awaiting.antt =====
-- The ways in which an order becomes paid, of internal/modules/orders/confirm.go and webhook.go, on an order
-- that awaits its payment.
use Prim.Native.String.{String}
use text.Mathlib.Text.{◌==◌ as str_eq}
use market_place.Prelude.{
  ℕ, List, ◌≡◌, ◌⊎◌, inl, inr, Bool-cases, refl, sym, subst, true, false, not, ◌||◌, Option, none,
  some, [], ◌∷◌, Result, ok, err, wrap, Ends, returns, fails, bind-Ends, if-Ends, ◌>>=◌,
  Ends-result, refuse-Ends,
}
use market_place.Ledger.Types.{Journal}
use market_place.Money.Types.{equal}
use market_place.Orders.Types.{
  Status, awaiting_payment, payment_failed, fulfilled, Accounts, OrderError,
}
use market_place.Orders.Machine.{transition, allowed, same_status}
use market_place.Orders.Payment.Handler.{
  PaymentStatus, PaymentRecord, PaymentRow, Sale, insert_payment, has_payment, issue_licenses,
  record_transfers, Context, record_capture, Callback, PaymentError, confirm_record,
  confirm_payment, on_payment_captured, capture_reported, on_payment_failed, Call, callback,
  capture, failure, capture_of, of_order, is_other, is_confirmed, is_captured, not_awaiting,
  mismatch,
}
use market_place.Orders.Payment.Licenses.{Licensed, issue_licenses-Licensed}
use market_place.Orders.Payment.Elsewhere.{call}

-- The journal and the table of payments at some time.
abbrev pub Books : Type 0
Books = Journal × List PaymentRow

-- Nothing has been bought: no licence, and the books as they were.
abbrev pub Untouched : Books → Sale → Type 0
Untouched j s = (s.licenses ≡ []) × (s.payments ≡ j.1) × (s.journal ≡ j.0)

-- The table has one row more, the order's, under a payment that was not in it; or it is as it was, and
-- the payment was in it.
abbrev pub Booked : (order : ℕ) → List PaymentRow → List PaymentRow → Type 0
Booked order ps after =
    (p : PaymentRow) × (((after ≡ p ∷ ps)
        × (p.order_id ≡ order)
        × (has_payment (p.payment_id) ps ≡ false))
      ⊎ ((after ≡ ps) × (has_payment (p.payment_id) ps ≡ true)))

-- What a sale that stands at a status has, the books having been `j` before it.
abbrev pub Standing : Books → Sale → Status → Type 0
Standing j s awaiting_payment = Untouched j s
Standing j s payment_failed = Untouched j s
Standing j s fulfilled =
    Licensed (s.order.lines) (s.licenses) × Booked (s.order.id) (j.1) (s.payments)
Standing j s _ = ⊥

insert-Booked :
    (order : ℕ) (r : PaymentRecord) (ps : List PaymentRow)
    → Booked order ps (insert_payment order r ps)
unfolding insert_payment
insert-Booked order r ps =
    let row : PaymentRow = record {
      order_id = order;
      payment_id = r.payment_id;
      amount = r.amount;
    } in
    elim (Bool-cases (has_payment (r.payment_id) ps)) [
      | inl known ↦ (row, rw known (inr (refl, refl)))
      | inr new ↦ (row, rw new (inl (refl, refl, refl)))
    ]

module _ (a : Accounts) (provider : String) where
  -- What `recordCapture` leaves of an unpaid sale.
  abbrev bought : PaymentRecord → Sale → Journal → Sale
  bought r s journal = record s {
    order = record (s.order) { status = fulfilled };
    payments = insert_payment (s.order.id) r (s.payments);
    journal = journal;
    licenses = issue_licenses (s.order.buyer_id) (s.order.lines) (s.licenses);
    transfers = record_transfers (s.order.lines) (s.transfers);
  }

  abbrev pub StandingAfter : Books → Sale → Type 0
  StandingAfter j s' = Standing j s' (s'.order.status)

  booked-Standing :
      (j : Books) (r : PaymentRecord) (s : Sale) (m : Result OrderError Journal)
      → s.payments ≡ j.1
      → Ends
          (λ _. Unit)
          (StandingAfter j)
          (wrap {E = PaymentError} of_order (m >>= λ journal. ok (bought r s journal)))
  booked-Standing j r s (ok journal) unpaid = returns (bought r s journal) (
    issue_licenses-Licensed (s.order.buyer_id) (s.order.lines) (s.licenses),
    rw (unpaid) (insert-Booked (s.order.id) r (j.1)),
  )
  booked-Standing j r s (err e) unpaid = fails (of_order e) tt

  record-Standing :
      (j : Books) (c : Context) (r : PaymentRecord) (s : Sale)
      → s.order.status ≡ awaiting_payment
      → s.payments ≡ j.1
      → Ends (λ _. Unit) (StandingAfter j) (wrap of_order (record_capture a provider c r s))
  unfolding record_capture transition allowed
  record-Standing j c r s awaiting unpaid = rw (awaiting) (booked-Standing j r s _ unpaid)

  -- An unpaid sale that a call leaves as it is stands as before.
  as_before :
      (j : Books) (s : Sale) → s.order.status ≡ awaiting_payment → Untouched j s → StandingAfter j s
  as_before j s awaiting un = subst (Standing j s) (sym awaiting) un

  capture-Standing :
      (j : Books) (c : Context) (r : PaymentRecord) (s : Sale)
      → s.order.status ≡ awaiting_payment
      → Untouched j s
      → Ends (λ _. Unit) (StandingAfter j) (capture_reported a provider c r s)
  unfolding capture_reported
  capture-Standing j c r s awaiting un =
      let (_, unpaid, _) = un in
      let here = as_before j s awaiting un in
      if-Ends (not (str_eq (s.intent_id) (r.intent_id))) (returns _ here) (λ _.
        if-Ends (not (same_status (s.order.status) awaiting_payment)) (returns _ here) (λ _.
          if-Ends (not (equal (r.amount) (s.order.grand_total))) (returns _ here)
            (λ _. record-Standing j c r s awaiting unpaid)))

  captured-Standing :
      (j : Books) (c : Context) (p : String) (reported : Option PaymentRecord) (s : Sale)
      → s.order.status ≡ awaiting_payment
      → Untouched j s
      → Ends (λ _. Unit) (StandingAfter j) (on_payment_captured a provider c p reported s)
  unfolding on_payment_captured
  captured-Standing j c p none s awaiting un =
      if-Ends (str_eq p "") (returns _ (as_before j s awaiting un)) (λ _. fails _ tt)
  captured-Standing j c p (some r) s awaiting un =
      let here = as_before j s awaiting un in
      if-Ends (str_eq p "") (returns _ here) (λ _.
        if-Ends (not (is_captured a provider (r.status))) (returns _ here)
          (λ _. capture-Standing j c r s awaiting un))

  failed-Standing :
      (j : Books) (intent : String) (s : Sale)
      → s.order.status ≡ awaiting_payment
      → Untouched j s
      → Ends (λ _. Unit) (StandingAfter j) (on_payment_failed a provider intent s)
  unfolding on_payment_failed transition allowed
  failed-Standing j intent s awaiting un =
      let here = as_before j s awaiting un in
      if-Ends (str_eq intent "" || not (str_eq (s.intent_id) intent)) (returns _ here)
        (λ _. rw awaiting (returns _ un))

  final-Standing :
      (j : Books) (c : Context) (b : Callback a provider) (r : PaymentRecord) (k : PaymentStatus)
      (s : Sale)
      → s.order.status ≡ awaiting_payment
      → Untouched j s
      → Ends
          (λ _. Unit)
          (StandingAfter j)
          (capture_of a provider b r k >>= λ final.
            wrap of_order (record_capture a provider c final s))
  final-Standing j c b r k s awaiting un =
      let (_, unpaid, _) = un in
      bind-Ends (capture_of a provider b r k) (Ends-result _)
        (λ final _. record-Standing j c final s awaiting unpaid)

  confirmed-Standing :
      (j : Books) (c : Context) (b : Callback a provider) (r : PaymentRecord) (s : Sale)
      → s.order.status ≡ awaiting_payment
      → Untouched j s
      → Ends (λ _. Unit) (StandingAfter j) (confirm_record a provider c b r s)
  unfolding confirm_record
  confirmed-Standing j c b r s awaiting un =
      if-Ends (is_other a provider (b.buyer) (s.order.buyer_id)) (fails _ tt) (λ _.
        if-Ends (is_confirmed a provider (s.order.status)) (returns _ (as_before j s awaiting un))
          (λ _.
            refuse-Ends (not (same_status (s.order.status) awaiting_payment)) not_awaiting _ tt
              (λ _.
                refuse-Ends (not (equal (r.amount) (s.order.grand_total))) mismatch _ tt
                  (λ _. final-Standing j c b r (r.status) s awaiting un))))

  callback-Standing :
      (j : Books) (c : Context) (b : Callback a provider) (reported : Option PaymentRecord)
      (s : Sale)
      → b.reported ≡ reported
      → s.order.status ≡ awaiting_payment
      → Untouched j s
      → Ends (λ _. Unit) (StandingAfter j) (confirm_payment a provider c b s)
  unfolding confirm_payment
  callback-Standing j c b none s e awaiting un =
      rw e (if-Ends (not (b.is_valid)) (fails _ tt) (λ _. fails _ tt))
  callback-Standing j c b (some r) s e awaiting un =
      rw e (if-Ends (not (b.is_valid)) (fails _ tt) (λ _. confirmed-Standing j c b r s awaiting un))

  pub awaiting-Standing :
      (j : Books) (x : Call a provider) (s : Sale)
      → s.order.status ≡ awaiting_payment
      → Untouched j s
      → Ends (λ _. Unit) (StandingAfter j) (call a provider x s)
  awaiting-Standing j (callback c b) s = callback-Standing j c b (b.reported) s refl
  awaiting-Standing j (capture c p reported) s = captured-Standing j c p reported s
  awaiting-Standing j (failure intent) s = failed-Standing j intent s
