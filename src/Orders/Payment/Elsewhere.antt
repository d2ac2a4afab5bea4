-- ===== src/Orders/Payment/Elsewhere.antt =====
-- The ways in which an order becomes paid, of internal/modules/orders/confirm.go and webhook.go, on an order
-- that does not await its payment.
use Prim.Native.String.{String}
use text.Mathlib.Text.{◌==◌ as str_eq}
use market_place.Prelude.{
  ◌≡◌, refl, false, not, ◌||◌, Option, none, some, List, Result, ok, err, Ends, returns, fails,
  if-Ends,
}
use market_place.Orders.Types.{awaiting_payment, Accounts}
use market_place.Orders.Machine.{same_status}
use market_place.Orders.Payment.Handler.{
  PaymentRecord, Sale, Difference, Context, Callback, PaymentError, confirm_record, confirm_payment,
  on_payment_captured, capture_reported, on_payment_failed, Call, callback, capture, failure,
  result_of, kept, is_other, is_confirmed, is_captured,
}

module _ (a : Accounts) (provider : String) where
  abbrev pub call : Call a provider → Sale → Result PaymentError Sale
  call x s = result_of a provider x s

  -- The same sale, but for what reconciliation notes.
  abbrev pub Noted : Sale → Sale → Type 0
  Noted s s' = (ds : List Difference) × (s' ≡ record s { differences = ds })

  pub Noted-kept :
      (s : Sale) (r : Result PaymentError Sale)
      → Ends (λ _. Unit) (Noted s) r
      → Noted s (kept a provider s r)
  Noted-kept s (ok s') (returns _ n) = n
  Noted-kept s (err e) (fails _ _) = (s.differences, refl)

  -- Calls on a sale that does not await its payment.
  abbrev pub Elsewhere : Sale → Type 0
  Elsewhere s = same_status (s.order.status) awaiting_payment ≡ false

  as_is : (s : Sale) → Noted s s
  as_is s = (s.differences, refl)

  capture-Noted :
      (c : Context) (r : PaymentRecord) (s : Sale)
      → Elsewhere s
      → Ends (λ _. Unit) (Noted s) (capture_reported a provider c r s)
  unfolding capture_reported
  capture-Noted c r s away =
      if-Ends (not (str_eq (s.intent_id) (r.intent_id))) (returns _ (_, refl))
        (λ _. rw away (returns s (as_is s)))

  captured-Noted :
      (c : Context) (p : String) (reported : Option PaymentRecord) (s : Sale)
      → Elsewhere s
      → Ends (λ _. Unit) (Noted s) (on_payment_captured a provider c p reported s)
  unfolding on_payment_captured
  captured-Noted c p none s away = if-Ends (str_eq p "") (returns s (as_is s)) (λ _. fails _ tt)
  captured-Noted c p (some r) s away = if-Ends (str_eq p "") (returns s (as_is s)) (λ _.
      if-Ends (not (is_captured a provider (r.status))) (returns s (as_is s))
        (λ _. capture-Noted c r s away))

  confirmed-Noted :
      (c : Context) (b : Callback a provider) (r : PaymentRecord) (s : Sale)
      → Elsewhere s
      → Ends (λ _. Unit) (Noted s) (confirm_record a provider c b r s)
  unfolding confirm_record
  confirmed-Noted c b r s away =
      if-Ends (is_other a provider (b.buyer) (s.order.buyer_id)) (fails _ tt) (λ _.
        if-Ends (is_confirmed a provider (s.order.status)) (returns s (as_is s))
          (λ _. rw away (fails _ tt)))

  callback-Noted :
      (c : Context) (b : Callback a provider) (reported : Option PaymentRecord) (s : Sale)
      → b.reported ≡ reported
      → Elsewhere s
      → Ends (λ _. Unit) (Noted s) (confirm_payment a provider c b s)
  unfolding confirm_payment
  callback-Noted c b none s e away =
      rw e (if-Ends (not (b.is_valid)) (fails _ tt) (λ _. fails _ tt))
  callback-Noted c b (some r) s e away =
      rw e (if-Ends (not (b.is_valid)) (fails _ tt) (λ _. confirmed-Noted c b r s away))

  failed-Noted :
      (intent : String) (s : Sale)
      → Elsewhere s
      → Ends (λ _. Unit) (Noted s) (on_payment_failed a provider intent s)
  unfolding on_payment_failed
  failed-Noted intent s away =
      if-Ends (str_eq intent "" || not (str_eq (s.intent_id) intent)) (returns s (as_is s))
        (λ _. rw away (returns s (as_is s)))

  pub call-Noted :
      (x : Call a provider) (s : Sale) → Elsewhere s → Ends (λ _. Unit) (Noted s) (call x s)
  call-Noted (callback c b) s = callback-Noted c b (b.reported) s refl
  call-Noted (capture c p reported) s = captured-Noted c p reported s
  call-Noted (failure intent) s = failed-Noted intent s
