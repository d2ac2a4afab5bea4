-- ===== src/Orders/Machine.antt =====
-- The order's state machine: the table `order_transitions_allowed` and its trigger in
-- db/migrations/0006_orders_payments.sql, `transition` of internal/modules/orders/checkout.go, and
-- `applyRefundStatuses` of internal/modules/orders/refund.go.
use mathlib.Core.Path.{subst}
use market_place.Prelude.{
  ◌⊎◌, ℕ, ◌≡◌, refl, ℤ, Bool, true, false, not, ◌||◌, if◌then◌else◌, ◌==◌, leb_ℤ, add64, Result, ok,
  ◌>>=◌, ◌>>◌, refuse_if, Bool-cases, inl, inr, arith,
}
use market_place.Money.Types.{Money}
use market_place.Orders.Types.{
  Status, draft, awaiting_payment, payment_failed, paid, fulfilled, completed, cancelled, expired,
  refund_pending, partially_refunded, refunded, disputed, chargeback_lost, LineBreakdown, Order,
  OrderError, illegal_transition, concurrent_transition,
}

-- The rows of `order_transitions_allowed`.
unfoldable pub allowed : Status → Status → Bool
allowed draft awaiting_payment = true
allowed draft cancelled = true
allowed draft expired = true
allowed awaiting_payment paid = true
allowed awaiting_payment payment_failed = true
allowed awaiting_payment cancelled = true
allowed awaiting_payment expired = true
allowed payment_failed awaiting_payment = true
allowed payment_failed cancelled = true
allowed paid fulfilled = true
allowed paid refund_pending = true
allowed paid disputed = true
allowed fulfilled completed = true
allowed fulfilled refund_pending = true
allowed fulfilled disputed = true
allowed completed refund_pending = true
allowed completed disputed = true
allowed refund_pending refunded = true
allowed refund_pending partially_refunded = true
allowed refund_pending fulfilled = true
allowed partially_refunded refund_pending = true
allowed partially_refunded refunded = true
allowed partially_refunded disputed = true
allowed disputed chargeback_lost = true
allowed disputed fulfilled = true
allowed disputed refunded = true
allowed _ _ = false

abbrev code_of : Status → ℕ
code_of draft = 0
code_of awaiting_payment = 1
code_of payment_failed = 2
code_of paid = 3
code_of fulfilled = 4
code_of completed = 5
code_of cancelled = 6
code_of expired = 7
code_of refund_pending = 8
code_of partially_refunded = 9
code_of refunded = 10
code_of disputed = 11
code_of chargeback_lost = 12

abbrev pub same_status : Status → Status → Bool
same_status s t = code_of s == code_of t

-- `transition` on an order that stands at `current`: the update's WHERE clause, and the trigger.
unfoldable pub transition : (current from to : Status) → Result OrderError Status
transition current from to = do
  refuse_if (not (same_status current from)) concurrent_transition
  refuse_if (not (same_status to from || allowed from to)) (illegal_transition from to)
  ok to

-- What `applyRefundStatuses` writes.
pub record RefundStatuses : Type 0 where
  pub item_refunded : ℤ
  pub item_fully : Bool
  pub order_refunded : ℤ
  pub status : Status

-- The first transition, unless the order stands at it already.
unfoldable pub to_pending : Status → Result OrderError Status
to_pending s = if same_status s refund_pending then ok s else transition s s refund_pending

abbrev pub refund_target : (order_refunded grand_total : ℤ) → Status
refund_target refunded_minor total =
    if leb_ℤ total refunded_minor then refunded else partially_refunded

-- `applyRefundStatuses`
unfoldable pub apply_refund_statuses :
    Order
    → LineBreakdown
    → (amount : Money) → (already_refunded : ℤ) → Result OrderError RefundStatuses
apply_refund_statuses o line amount already = do
  pending ← to_pending o.status
  final ←
      transition pending refund_pending
        (refund_target (add64 o.refunded_total.minor amount.minor) o.grand_total.minor)
  ok (record {
    item_refunded = add64 already amount.minor;
    item_fully = leb_ℤ line.breakdown.buyer_total.minor (add64 already amount.minor);
    order_refunded = add64 o.refunded_total.minor amount.minor;
    status = final;
  })

-- What `applyRefundStatuses` means to write.
abbrev pub refund_written :
    Order → LineBreakdown → (amount : Money) → (already : ℤ) → RefundStatuses
refund_written o line amount already = record {
  item_refunded = add64 already amount.minor;
  item_fully = leb_ℤ line.breakdown.buyer_total.minor (add64 already amount.minor);
  order_refunded = add64 o.refunded_total.minor amount.minor;
  status = refund_target (add64 o.refunded_total.minor amount.minor) o.grand_total.minor;
}

-- The statuses before any payment.
abbrev pub is_unpaid : Status → Bool
is_unpaid draft = true
is_unpaid awaiting_payment = true
is_unpaid payment_failed = true
is_unpaid cancelled = true
is_unpaid expired = true
is_unpaid _ = false

-- The histories of an order: the statuses that the trigger lets it pass, from the first to the last.
pub data History : Status → Status → Type 0 where
  start : (s : Status) → History s s
  step : (s t u : Status) → History s t → allowed t u ≡ true → History s u

-- Whether a history from s comes to the status p on its way to u.
pub data Passes (p s : Status) : (u : Status) → History s u → Type 0 where
  here : (h : History s p) → Passes p s p h
  later :
      (t u : Status) (h : History s t) (e : allowed t u ≡ true)
      → Passes p s t h
      → Passes p s u (step s t u h e)

first_payment :
    (t u : Status) → is_unpaid t ≡ true → is_unpaid u ≡ false → allowed t u ≡ true → u ≡ paid
unfolding allowed
first_payment t u ht hu e = ground arith

pass_here : (p s u : Status) (h : History s u) → u ≡ p → Passes p s u h
pass_here p s u h e = subst (λ q. Passes q s u h) e (here h)

-- An order that starts before its payment and ends at a status that follows one, whether settled,
-- refunded, disputed or charged back, has been `paid` on its way.
pub Passes-paid :
    (s u : Status) (h : History s u) → is_unpaid s ≡ true → is_unpaid u ≡ false → Passes paid s u h
Passes-paid s _ (start _) hs hu = cc
Passes-paid s _ (step _ t u h e) hs hu = elim (Bool-cases (is_unpaid t)) [
  | inl unpaid ↦ pass_here paid s u (step s t u h e) (first_payment t u unpaid hu e)
  | inr after ↦ later t u h e (Passes-paid s t h hs after)
]

-- The statuses that end an order's life.
abbrev pub is_final : Status → Bool
is_final cancelled = true
is_final expired = true
is_final refunded = true
is_final chargeback_lost = true
is_final _ = false

-- No transition leaves a cancelled, expired, refunded or charged-back order, and from every other
-- status there is one.
pub final_statuses :
    (s : Status)
    → ((is_final s ≡ true) × ((t : Status) → allowed s t ≡ false))
      ⊎ ((is_final s ≡ false) × (t : Status) × (allowed s t ≡ true))
unfolding allowed
final_statuses draft = inr (refl, cancelled, refl)
final_statuses awaiting_payment = inr (refl, paid, refl)
final_statuses payment_failed = inr (refl, cancelled, refl)
final_statuses paid = inr (refl, disputed, refl)
final_statuses fulfilled = inr (refl, disputed, refl)
final_statuses completed = inr (refl, disputed, refl)
final_statuses cancelled = inl (refl, λ t. refl)
final_statuses expired = inl (refl, λ t. refl)
final_statuses refund_pending = inr (refl, refunded, refl)
final_statuses partially_refunded = inr (refl, disputed, refl)
final_statuses refunded = inl (refl, λ t. refl)
final_statuses disputed = inr (refl, refunded, refl)
final_statuses chargeback_lost = inl (refl, λ t. refl)
