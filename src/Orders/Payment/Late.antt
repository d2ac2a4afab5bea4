-- ===== src/Orders/Payment/Late.antt =====
-- The ways in which an order becomes paid, of internal/modules/orders/confirm.go and webhook.go: a
-- payment that is used again, and a capture behind a failed attempt.
use Prim.Native.String.{String}
use text.Mathlib.Text.{◌==◌ as str_eq}
use market_place.Prelude.{
  ◌≡◌, refl, Bool, true, false, if◌then◌else◌, not, ◌||◌, Option, none, some, List, [], ◌∷◌, All,
  Result, ok,
}
use market_place.Ledger.Types.{Journal}
use market_place.Money.Types.{equal}
use market_place.Orders.Payment.Licenses.{Licensed, issue_licenses-Licensed}
use market_place.Orders.Types.{awaiting_payment, payment_failed, fulfilled, Accounts}
use market_place.Orders.Machine.{transition, allowed}
use market_place.Orders.Payment.Handler.{
  has_payment, insert_payment, issue_licenses, record_transfers, post_capture_ledger,
  record_capture, PaymentRecord, Sale, Context, captured, Callback, is_other, is_captured,
  PaymentError, confirm_record, confirm_payment, on_payment_captured, capture_reported,
  on_payment_failed, Call, callback, capture, failure, result_of, kept, run_calls,
}

-- The sale, its payment failed.
abbrev pub failed : Sale → Sale
failed s = record s { order = record (s.order) { status = payment_failed } }

module _ (a : Accounts) (provider : String) where
  -- A payment that is recorded already, as that of whatever order, and of whatever intent: if its buyer brings it
  -- with a valid callback to a sale of the same amount that awaits its payment, and the ledger takes
  -- the entries, the sale is fulfilled and every line has a licence, with no payment besides.
  pub reuses_payment :
      (c : Context) (b : Callback a provider) (r : PaymentRecord) (s : Sale) (journal : Journal)
      → b.is_valid ≡ true
      → b.reported ≡ some r
      → is_other a provider (b.buyer) (s.order.buyer_id) ≡ false
      → r.status ≡ captured
      → s.order.status ≡ awaiting_payment
      → equal (r.amount) (s.order.grand_total) ≡ true
      → has_payment (r.payment_id) (s.payments) ≡ true
      → post_capture_ledger a provider c (s.order) r (s.journal) ≡ ok journal
      → (s' : Sale) × (confirm_payment a provider c b s ≡ ok s')
        × (s'.order.status ≡ fulfilled)
        × (s'.payments ≡ s.payments)
        × Licensed (s'.order.lines) (s'.licenses)
  unfolding confirm_payment confirm_record record_capture transition allowed insert_payment
      post_capture_ledger issue_licenses record_transfers
  reuses_payment c b r s journal valid reported own done awaiting same known posted = (
    record s {
      order = record (s.order) { status = fulfilled };
      journal = journal;
      licenses = issue_licenses (s.order.buyer_id) (s.order.lines) (s.licenses);
      transfers = record_transfers (s.order.lines) (s.transfers);
    },
    rw (valid, reported, own, done, posted, awaiting, same, known) refl,
    refl,
    refl,
    issue_licenses-Licensed (s.order.buyer_id) (s.order.lines) (s.licenses),
  )

  -- Calls that are about the sale's own payment intent.
  abbrev pub IsOwn : Sale → Call a provider → Type 0
  IsOwn s (callback c b) = Unit
  IsOwn s (capture c p none) = Unit
  IsOwn s (capture c p (some r)) = str_eq (s.intent_id) (r.intent_id) ≡ true
  IsOwn s (failure i) = Unit

  kept-if :
      (s : Sale) (b : Bool) (x y : Result PaymentError Sale)
      → kept a provider s x ≡ s
      → kept a provider s y ≡ s
      → kept a provider s (if b then x else y) ≡ s
  kept-if s true x y same other = same
  kept-if s false x y same other = other

  failed-callback :
      (s : Sale) (c : Context) (b : Callback a provider) (reported : Option PaymentRecord)
      → b.reported ≡ reported
      → kept a provider (failed s) (confirm_payment a provider c b (failed s)) ≡ failed s
  unfolding confirm_payment confirm_record
  failed-callback s c b none e = rw e (kept-if (failed s) (not (b.is_valid)) _ _ refl refl)
  failed-callback s c b (some r) e = rw e (
      kept-if (failed s) (not (b.is_valid)) _ _ refl
        (kept-if (failed s) (is_other a provider (b.buyer) (s.order.buyer_id)) _ _ refl refl))

  failed-kept :
      (s : Sale) (x : Call a provider)
      → IsOwn s x
      → kept a provider (failed s) (result_of a provider x (failed s)) ≡ failed s
  unfolding on_payment_captured capture_reported on_payment_failed
  failed-kept s (callback c b) own = failed-callback s c b (b.reported) refl
  failed-kept s (capture c p none) own = kept-if (failed s) (str_eq p "") _ _ refl refl
  failed-kept s (capture c p (some r)) own = rw own (
      kept-if (failed s) (str_eq p "") _ _ refl
        (kept-if (failed s) (not (is_captured a provider (r.status))) _ _ refl refl))
  failed-kept s (failure i) own =
      kept-if (failed s) (str_eq i "" || not (str_eq (s.intent_id) i)) _ _ refl refl

  failed-stays :
      (xs : List (Call a provider)) (s : Sale)
      → All (IsOwn s) xs
      → run_calls a provider xs (failed s) ≡ failed s
  unfolding run_calls
  failed-stays [] s own = refl
  failed-stays (x ∷ xs) s (own, rest) = rw (failed-kept s x own) (failed-stays xs s rest)

  -- Behind a failed attempt on a sale that awaits its payment, calls about the same intent leave nothing:
  -- a payment that is captured in a later attempt brings neither a licence nor an entry in the
  -- journal, and reconciliation notes no difference.
  pub failure-final :
      (intent : String) (xs : List (Call a provider)) (s : Sale)
      → str_eq intent "" ≡ false
      → str_eq (s.intent_id) intent ≡ true
      → s.order.status ≡ awaiting_payment
      → All (IsOwn s) xs
      → run_calls a provider (failure intent ∷ xs) s ≡ failed s
  unfolding run_calls on_payment_failed transition allowed
  failure-final intent xs s named own awaiting all =
      rw (named, own, awaiting) (failed-stays xs s all)
