-- ===== src/Orders/Tests.antt =====
-- Runs of internal/modules/orders on given orders.
use market_place.Prelude.{◌≡◌, ◌≤◌, ◌+◌, refl, ℕ, pos, true, false, some, [], ◌∷◌, ok, arith, Ends}
use market_place.Money.Types.{Money}
use market_place.Prelude.{
  Result, err, ℤ, List, ◌+ℤ◌, ◌-ℤ◌, ◌*ℤ◌, add64, sub64, neg64, mul64, wrap64,
}
use market_place.Money.Types.{exponent, is_valid, new}
use market_place.Money.Wide.{
  to_u64, to_i64, abs_u64, narrow, mul_div_rem, bumps, away, resolve, mul_div_round,
}
use market_place.Money.Arith.{add, sub, neg, abs, mul_ratio, apply_basis_points}
use market_place.Ledger.Types.{Direction, debit, credit, Line, Entry}
use market_place.Orders.Types.{OrderError, account_by_code, seller_account}
use market_place.Orders.Refund.{
  reverse_seller, reverse_on, reverse_components, book, absorb, residue_line, scale_to_refund,
  clearing_account_code,
}
use market_place.Orders.Settlement.{
  Released, withhold, reserve_entries, settle_entries, move_amount, apply_loop, step_of, step_by,
}
use market_place.Money.Sums.{IsNatural}
use market_place.Tax.Types.{intra_state, applies}
use market_place.Ledger.Post.{validate}
use market_place.Orders.Types.{
  draft, awaiting_payment, paid, fulfilled, LineBreakdown, Order, Accounts,
}
use market_place.Orders.Refund.{refund_entry}
use market_place.Orders.Entries.{IsExpected, IsUnknown, HasIds}
use market_place.Orders.Reversal.{IsScalable, refund_entry-Ends}
use market_place.Orders.Chargeback.{ChargedItem, chargeback_entry}
use market_place.Orders.Loss.{AreRows, chargeback_entry-Ends}
use market_place.Orders.Machine.{allowed, History, start, step, Passes, Passes-paid}
use market_place.Orders.Settlement.{Offset, Release, release_one, apply_offsets}
use market_place.Orders.Offsets.{IsOffset}
use market_place.Orders.Release.{IsReleased, IsRecovered, apply_offsets-Ends, release_one-Ends}
use market_place.Orders.Capture.{capture_entry, fee_entry}
use market_place.Orders.Fees.{IsAccepted, fee_entry-Ends}
use market_place.Orders.Balanced.{IsSold, capture_entry-Ends}

abbrev rupees : ℕ → Money
rupees a = record { minor = pos a; cur = "INR" }

rupees-IsNatural : (a : ℕ) → a ≤ 1_000_000 → IsNatural "INR" (rupees a)
rupees-IsNatural a h = (refl, refl, (omega arith, omega arith))

abbrev pub accounts : Accounts
accounts = record { by_code = λ _. some 7; of_seller = λ s _ _. some (s + 1) }

accounts-HasIds : HasIds accounts
accounts-HasIds = (λ code id e. ground arith, λ s p c id e. ground arith)

abbrev sold : LineBreakdown
sold = record {
  item_id = 11;
  item_public_id = "itm_1";
  product_id = 12;
  seller_id = 13;
  breakdown = record {
    currency = "INR";
    supply = intra_state;
    list_price = rupees 100_000;
    cgst = rupees 9000;
    sgst = rupees 9000;
    igst = rupees 0;
    tax_total = rupees 18_000;
    buyer_total = rupees 118_000;
    gst_rate_bps = pos 1800;
    commission_bps = pos 1000;
    commission = rupees 10_000;
    commission_gst = rupees 1800;
    commission_gst_bps = pos 1800;
    tcs_bps = pos 100;
    tcs_cgst = rupees 500;
    tcs_sgst = rupees 500;
    tcs_igst = rupees 0;
    tcs = rupees 1000;
    tds_bps = pos 10;
    tds = rupees 100;
    tds_reason = applies;
    psp_fee = rupees 2360;
    psp_fee_gst = rupees 425;
    psp_fee_borne = "platform";
    seller_net = rupees 105_100;
    platform_margin = rupees 7640;
  };
}

abbrev pub order : Order
order = record {
  id = 21;
  public_id = "ord_1";
  number = "MP-1";
  buyer_id = 31;
  status = fulfilled;
  currency = "INR";
  grand_total = rupees 118_000;
  refunded_total = rupees 0;
  lines = sold ∷ [];
}

sold-IsScalable : IsScalable "INR" sold
sold-IsScalable = (
  rupees-IsNatural 105_100 (omega arith),
  rupees-IsNatural 10_000 (omega arith),
  rupees-IsNatural 1800 (omega arith),
  rupees-IsNatural 1000 (omega arith),
  rupees-IsNatural 100 (omega arith),
  rupees-IsNatural 118_000 (omega arith),
  omega arith,
)

refund_entry-Ends_example :
    Ends
      (IsExpected ⊥)
      (λ e. validate e ≡ ok tt)
      (refund_entry accounts (λ s. s) "mor" order sold (rupees 5000) false "rfd_1" (pos 3))
refund_entry-Ends_example =
    refund_entry-Ends accounts (λ s. s) "mor" order sold (rupees 5000) false "rfd_1" (pos 3)
      accounts-HasIds refl sold-IsScalable (rupees-IsNatural 5000 (omega arith)) refl

-- A share that is paid out and one that is not.
abbrev charged : List ChargedItem
charged =
    record { seller_id = 3; net = pos 3000; settled_away = true }
    ∷ (record { seller_id = 4; net = pos 1000; settled_away = false } ∷ [])

charged-AreRows : AreRows charged
charged-AreRows = ((omega arith, omega arith), ((omega arith, omega arith), tt))

chargeback_entry-Ends_example :
    Ends
      (IsExpected ⊥)
      (λ e. validate e ≡ ok tt)
      (chargeback_entry accounts (λ s. s) "mor" "ord_1" "dsp_1" charged (rupees 5000) (pos 3))
chargeback_entry-Ends_example =
    chargeback_entry-Ends accounts (λ s. s) "mor" "ord_1" "dsp_1" charged (rupees 5000) (pos 3)
      accounts-HasIds refl charged-AreRows (rupees-IsNatural 5000 (omega arith)) refl

-- Payment and delivery.
abbrev delivery : History draft fulfilled
unfolding allowed
delivery =
    step draft paid fulfilled
      (step draft awaiting_payment paid (step draft draft awaiting_payment (start draft) refl) refl)
      refl

Passes-paid_example : Passes paid draft fulfilled delivery
Passes-paid_example = Passes-paid draft fulfilled delivery refl refl

abbrev recovery : Offset
recovery = record { public_id = "pyt_1"; amount = pos 9000; already_on = pos 2000 }

recovery-IsOffset : IsOffset recovery
recovery-IsOffset = ((refl, (omega arith, omega arith)), (refl, (omega arith, omega arith)), refl)

apply_offsets-Ends_example :
    Ends
      (IsExpected (IsUnknown "INR"))
      (IsRecovered "INR" (rupees 5000) (recovery ∷ []))
      (apply_offsets accounts (λ s. s) (λ _. "50.00") (pos 3) 14 (recovery ∷ []) (rupees 5000))
apply_offsets-Ends_example =
    apply_offsets-Ends accounts (λ s. s) (λ _. "50.00") (pos 3) 14 (recovery ∷ []) (rupees 5000)
      accounts-HasIds (omega arith) (recovery-IsOffset, tt) (rupees-IsNatural 5000 (omega arith))

abbrev due : Release
due = record {
  provider = "mor";
  order_public_id = "ord_1";
  item = "0b";
  seller_id = 13;
  amount = rupees 105_100;
  reserve_bps = pos 500;
  offsets = recovery ∷ [];
  now = pos 3;
}

release_one-Ends_example :
    Ends
      (IsExpected (IsUnknown "INR"))
      (IsReleased "INR" due)
      (release_one accounts (λ s. s) (λ _. "70.00") due)
release_one-Ends_example =
    release_one-Ends accounts (λ s. s) (λ _. "70.00") due accounts-HasIds refl
      (rupees-IsNatural 105_100 (omega arith)) (refl, omega arith) (recovery-IsOffset, tt)

sold-IsSold : IsSold "INR" sold
sold-IsSold = (
  rupees-IsNatural 105_100 (omega arith),
  rupees-IsNatural 10_000 (omega arith),
  rupees-IsNatural 1800 (omega arith),
  rupees-IsNatural 1000 (omega arith),
  rupees-IsNatural 100 (omega arith),
  omega arith,
)

capture_entry-Ends_example :
    Ends
      (IsExpected ⊥)
      (λ e. validate e ≡ ok tt)
      (capture_entry accounts "mor" order "pay_1" (pos 3))
capture_entry-Ends_example =
    capture_entry-Ends accounts "mor" order "pay_1" (pos 3) accounts-HasIds refl (sold-IsSold, tt)
      (rupees-IsNatural 118_000 (omega arith)) (omega arith) (omega arith)

fee_entry-Ends_example :
    Ends
      (IsExpected ⊥)
      (IsAccepted (rupees 2360) (rupees 425))
      (fee_entry accounts "mor" order "pay_1" (pos 3) 7 (rupees 2360) (rupees 425))
fee_entry-Ends_example =
    fee_entry-Ends accounts "mor" order "pay_1" (pos 3) 7 (rupees 2360) (rupees 425) accounts-HasIds
      refl (omega arith) (rupees-IsNatural 2360 (omega arith)) (rupees-IsNatural 425 (omega arith))

abbrev parts_of : Result OrderError Released → List ℤ
parts_of (ok w) = w.reserve.minor ∷ w.applied.minor ∷ w.net.minor ∷ []
parts_of (err _) = []

-- 5 % of 1,051.00 is 52.55, of which the offset then takes 70.00.
due_parts :
    parts_of (release_one accounts (λ s. s) (λ _. "70.00") due)
    ≡ pos 5255 ∷ pos 7000 ∷ pos 92_845 ∷ []
unfolding release_one withhold reserve_entries settle_entries apply_offsets apply_loop move_amount
    step_of step_by account_by_code seller_account new is_valid exponent add sub neg mul_ratio
    apply_basis_points mul_div_round mul_div_rem resolve bumps away narrow abs_u64 to_u64 to_i64
    add64 sub64 neg64 mul64 wrap64 ◌+ℤ◌ ◌-ℤ◌ ◌*ℤ◌
due_parts = refl

abbrev amounts_of : List Line → List (Direction × ℤ)
amounts_of [] = []
amounts_of (l ∷ ls) = (l.direction, l.amount.minor) ∷ amounts_of ls

abbrev line_amounts : Result OrderError Entry → List (Direction × ℤ)
line_amounts (err _) = []
line_amounts (ok e) = amounts_of e.lines

-- The shares of a refund of 50.00 of 1,180.00 are rounded to the paisa.
refund_lines :
    line_amounts
      (refund_entry accounts (λ s. s) "mor" order sold (rupees 5000) false "rfd_1" (pos 3))
    ≡ (debit, pos 4453)
      ∷ (debit, pos 424)
      ∷ (debit, pos 76)
      ∷ (debit, pos 42)
      ∷ (debit, pos 4)
      ∷ (debit, pos 1)
      ∷ (credit, pos 5000)
      ∷ []
unfolding refund_entry reverse_seller reverse_on reverse_components book absorb residue_line
    scale_to_refund account_by_code seller_account clearing_account_code add sub neg abs mul_ratio
    mul_div_round mul_div_rem resolve bumps away narrow abs_u64 to_u64 to_i64 add64 sub64 neg64
    mul64 wrap64 ◌+ℤ◌ ◌-ℤ◌ ◌*ℤ◌
refund_lines = refl
