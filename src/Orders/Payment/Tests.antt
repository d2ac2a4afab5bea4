-- ===== src/Orders/Payment/Tests.antt =====
-- The ways in which an order becomes paid, of internal/modules/orders/confirm.go and webhook.go, on a given
-- order, and the theorems at inputs.
use market_place.Prelude.{◌≡◌, refl, pos, true, false, none, some, List, [], ◌∷◌, Result, ok, err}
use market_place.Ledger.Types.{Journal}
use market_place.Orders.Types.{Order, awaiting_payment, fulfilled, OrderError}
use market_place.Orders.Tests.{accounts, order}
use market_place.Orders.Payment.Handler.{
  PaymentRecord, Sale, Context, captured, Callback, Call, callback, capture, failure, run_calls,
  post_capture_ledger, has_payment, confirm_payment,
}
use market_place.Prelude.{◌-ℤ◌, ◌+ℤ◌, ◌*ℤ◌, mul64, add64, neg64, wrap64}
use market_place.Money.Types.{new, is_valid, exponent}
use market_place.Money.Wide.{mul_div_round, abs_u64, narrow, to_i64}
use market_place.Money.Arith.{apply_basis_points, add, sub, neg}
use market_place.Ledger.Post.{
  post, validate, check_lines, check_line, find_key, insert_entry, insert_lines, replay_or_insert,
  tally,
}
use market_place.Orders.Types.{account_by_code, seller_account}
use market_place.Orders.Refund.{clearing_account_code}
use market_place.Orders.Capture.{
  capture_entry, fee_entry, processing_cost, credit_sellers, add_totals, credit_if, fee_lines,
}
use market_place.Orders.Payment.Licenses.{Licensed}
use market_place.Orders.Payment.Awaiting.{Books}
use market_place.Orders.Payment.Late.{reuses_payment, failed, failure-final}

abbrev unpaid : Order
unpaid = record order { status = awaiting_payment }

abbrev empty : Journal
empty = record { entries = []; lines = [] }

abbrev sale : Sale
sale = record {
  order = unpaid;
  intent_id = "order_1";
  payments = [];
  journal = empty;
  licenses = [];
  transfers = [];
  differences = [];
}

abbrev payment : PaymentRecord
payment = record {
  payment_id = "pay_1";
  intent_id = "order_1";
  amount = order.grand_total;
  status = captured;
  fee = none;
  tax = none;
}

abbrev context : Context
context = record {
  now = pos 1_000;
  capture_id = 1;
  fee_id = 2;
  public_id = "jrn_1";
  faults = record { at_lookup = false; at_entry = false; at_line = λ _. false };
  fee_bps = pos 200;
  gst_bps = pos 1800;
}

abbrev back : Callback accounts "mor"
back = record { buyer = some 31; is_valid = true; reported = some payment; after_capture = none }

-- Before, with the payment of another order.
abbrev before : Books
before = (empty, (record { order_id = 20; payment_id = "pay_0"; amount = order.grand_total } ∷ []))

abbrev next_sale : Sale
next_sale = record sale { payments = before.1 }

abbrev calls : List (Call accounts "mor")
calls = callback context back ∷ capture context "pay_1" (some payment) ∷ []

failure-final_example : run_calls accounts "mor" (failure "order_1" ∷ calls) sale ≡ failed sale
failure-final_example =
    failure-final accounts "mor" "order_1" calls sale refl refl refl (tt, (refl, tt))

abbrev journal_of : Result OrderError Journal → Journal
journal_of (ok j) = j
journal_of (err e) = empty

abbrev booked : Journal
booked = journal_of (post_capture_ledger accounts "mor" context unpaid payment empty)

posts : post_capture_ledger accounts "mor" context unpaid payment empty ≡ ok booked
unfolding post_capture_ledger capture_entry fee_entry processing_cost account_by_code seller_account
    credit_sellers add_totals credit_if fee_lines clearing_account_code new is_valid exponent sub
    add neg neg64 add64 wrap64 ◌-ℤ◌ ◌+ℤ◌ post validate check_lines check_line find_key insert_entry
    insert_lines replay_or_insert tally apply_basis_points mul_div_round abs_u64 narrow to_i64 mul64
    ◌*ℤ◌
posts = refl

-- A second order of the same buyer, and the first one's payment.
abbrev second : Sale
second = record sale {
  intent_id = "order_2";
  payments = record { order_id = 20; payment_id = "pay_1"; amount = order.grand_total } ∷ [];
}

reuses_payment_example :
    (s' : Sale) × (confirm_payment accounts "mor" context back second ≡ ok s')
    × (s'.order.status ≡ fulfilled)
    × (s'.payments ≡ second.payments)
    × Licensed (s'.order.lines) (s'.licenses)
unfolding has_payment
reuses_payment_example =
    reuses_payment accounts "mor" context back payment second booked refl refl refl refl refl refl
      refl posts
