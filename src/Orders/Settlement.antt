-- ===== src/Orders/Settlement.antt =====
-- internal/modules/orders/settlement.go: why a settlement is held back, and what a release and the
-- offsets against it move. A text that the database or package ids makes is a parameter: the
-- printed UUID of an item, and an amount's `Decimal()`.
use Prim.Native.String.{String, ◌++◌ as ◌⧺◌}
use text.Mathlib.Text.{◌==◌ as str_eq}
use market_place.Prelude.{
  ℕ, ℤ, pos, Bool, not, ◌||◌, if◌then◌else◌, ltb, ltb_ℤ, leb_ℤ, add64, sub64, Option, none, some,
  List, [], ◌∷◌, Result, ok, ◌>>=◌, wrap,
}
use market_place.Money.Types.{Money, new, zero_of, is_positive, down}
use market_place.Money.Arith.{add, sub, apply_basis_points}
use market_place.Ledger.Types.{debit, credit, Entry}
use market_place.Orders.Types.{
  Status, refund_pending, refunded, disputed, chargeback_lost, OrderError, of_money, Accounts,
  account_by_code, seller_account,
}
use market_place.Orders.Refund.{line_of, clearing_account_code, offset_account_code}

-- A transfer that is due, as the scan of `ReleaseDueSettlements` reads it.
pub record Candidate : Type 0 where
  pub order_status : Status
  pub disputes : ℕ
  pub kyc_status : String
  pub account_status : String
  pub seller_status : String

pub data Hold : Type 0 where
  under_dispute being_refunded dispute_open kyc_missing not_activated suspended : Hold

abbrev hold_by_order : Status → Option Hold
hold_by_order disputed = some under_dispute
hold_by_order chargeback_lost = some under_dispute
hold_by_order refunded = some being_refunded
hold_by_order refund_pending = some being_refunded
hold_by_order _ = none

abbrev hold_by_seller : Candidate → Option Hold
hold_by_seller c =
    if ltb 0 c.disputes
    then some dispute_open
    else if not (str_eq c.kyc_status "verified")
    then some kyc_missing
    else if not (str_eq c.account_status "activated")
    then some not_activated
    else if str_eq c.seller_status "suspended" || str_eq c.seller_status "closed"
    then some suspended
    else none

abbrev or_else : Option Hold → Option Hold → Option Hold
or_else (some h) other = some h
or_else none other = other

-- The switch that defers a settlement.
unfoldable pub hold_of : Candidate → Option Hold
hold_of c = or_else (hold_by_order c.order_status) (hold_by_seller c)

-- A row of `settlement_offsets` that is outstanding.
pub record Offset : Type 0 where
  pub public_id : String
  pub amount : ℤ
  pub already_on : ℤ

-- What becomes of an offset: nothing is outstanding, nothing is left to take, or an amount is taken.
pub data Step : Type 0 where
  skip stop : Step
  take : ℤ → Step

abbrev lesser : ℤ → ℤ → ℤ
lesser a b = if ltb_ℤ b a then b else a

unfoldable pub step_by : (outstanding remaining : ℤ) → Step
step_by outstanding remaining =
    if leb_ℤ outstanding (pos 0)
    then skip
    else if leb_ℤ (lesser outstanding remaining) (pos 0)
    then stop
    else take (lesser outstanding remaining)

unfoldable pub step_of : Offset → (remaining : ℤ) → Step
unfolding step_by
step_of o remaining = step_by (sub64 o.amount o.already_on) remaining

-- The update of an offset's row, and the entry that goes with it.
pub record Taken : Type 0 where
  pub offset : Offset
  pub taken : Money
  pub new_applied : ℤ
  pub is_settled : Bool
  pub entry : Entry

-- An entry of two lines.
abbrev pub transfer :
    (kind description reference_type reference_id key : String) (now : ℤ) (from to : ℕ)
    → Money
    → (from_memo to_memo : String) → Entry
transfer kind description reference_type reference_id key now from to m from_memo to_memo = record {
  kind = kind;
  currency = m.cur;
  occurred_at = some now;
  description = description;
  reference_type = reference_type;
  reference_id = reference_id;
  idempotency_key = key;
  reverses_entry_id = none;
  lines = line_of debit from m from_memo ∷ line_of credit to m to_memo ∷ [];
}

abbrev pub take_from :
    (decimal : Money → String) (now : ℤ) (payable offset_acct : ℕ) → Offset → Money → Taken
take_from decimal now payable offset_acct o m = record {
  offset = o;
  taken = m;
  new_applied = add64 o.already_on m.minor;
  is_settled = leb_ℤ o.amount (add64 o.already_on m.minor);
  entry =
      transfer "adjustment" "Settlement offset applied" "settlement_offset" o.public_id
        ("offset:" ⧺ (o.public_id ⧺ (":" ⧺ decimal m))) now payable offset_acct m
        "netted against an outstanding recovery" "recovery collected";
}

-- The amount that is taken, and what is applied and what remains after it.
unfoldable pub move_amount :
    (t : ℤ) → (remaining applied : Money) → Result OrderError (Money × Money × Money)
move_amount t remaining applied = do
  m ← wrap of_money (new t remaining.cur)
  more ← wrap of_money (add applied m)
  less ← wrap of_money (sub remaining m)
  ok (m, more, less)

-- The loop of `applyOffsets`: what is applied in all, and what each offset gives, in order.
unfoldable pub apply_loop :
    (decimal : Money → String) (now : ℤ) (payable offset_acct : ℕ)
    → List Offset
    → (remaining applied : Money) → Result OrderError (Money × List Taken)
apply_loop decimal now payable acct [] remaining applied = ok (applied, [])
apply_loop decimal now payable acct (o ∷ os) remaining applied = elim (step_of o remaining.minor) [
  | skip ↦ apply_loop decimal now payable acct os remaining applied
  | stop ↦ ok (applied, [])
  | take t ↦ do
    (m, more, less) ← move_amount t remaining applied
    (final, ts) ← apply_loop decimal now payable acct os less more
    ok (final, take_from decimal now payable acct o m ∷ ts)
]

abbrev pub apply_some :
    Accounts
    → (lower : String → String) (decimal : Money → String) (now : ℤ) (payable : ℕ) → List Offset
    → (available : Money) → Result OrderError (Money × List Taken)
apply_some a lower decimal now payable [] available = ok (zero_of available.cur, [])
apply_some a lower decimal now payable os available = do
  acct ← account_by_code a (offset_account_code lower available.cur)
  apply_loop decimal now payable acct os available (zero_of available.cur)

-- `applyOffsets`, on the seller's outstanding offsets, the oldest first.
unfoldable pub apply_offsets :
    Accounts
    → (lower : String → String) (decimal : Money → String) (now : ℤ) (payable : ℕ) → List Offset
    → (available : Money) → Result OrderError (Money × List Taken)
apply_offsets a lower decimal now payable os available =
    if is_positive available
    then apply_some a lower decimal now payable os available
    else ok (zero_of available.cur, [])

-- What `releaseOne` is given: the transfer's rows, the clock and the texts.
pub record Release : Type 0 where
  pub provider : String
  pub order_public_id : String
  pub item : String
  pub seller_id : ℕ
  pub amount : Money
  pub reserve_bps : ℤ
  pub offsets : List Offset
  pub now : ℤ

-- What `releaseOne` does with the amount: the three parts, and the entries it posts, in order.
pub record Released : Type 0 where
  pub reserve : Money
  pub applied : Money
  pub net : Money
  pub taken : List Taken
  pub before_offsets : List Entry
  pub after_offsets : List Entry

unfoldable pub withhold : (amount : Money) → (bps : ℤ) → Result OrderError Money
withhold amount bps =
    if ltb_ℤ (pos 0) bps
    then wrap of_money (apply_basis_points amount bps down)
    else ok (zero_of amount.cur)

unfoldable pub reserve_entries :
    Accounts → Release → (payable : ℕ) → (reserve : Money) → Result OrderError (List Entry)
reserve_entries a r payable reserve =
    if is_positive reserve
    then (do
      acct ← seller_account a r.seller_id "reserve" r.amount.cur
      ok (
          transfer "rolling_reserve_hold"
            ("Rolling reserve withheld on settlement for " ⧺ r.order_public_id) "order_item" r.item
            ("reserve:" ⧺ r.item) r.now payable acct reserve "moved to rolling reserve"
            "held against chargeback exposure"
          ∷ []))
    else ok []

unfoldable pub settle_entries :
    Accounts → Release → (payable : ℕ) → (net : Money) → Result OrderError (List Entry)
settle_entries a r payable net =
    if is_positive net
    then (do
      acct ← account_by_code a (clearing_account_code r.provider)
      ok (
          transfer "settlement_release" ("Settlement released for " ⧺ r.order_public_id)
            "order_item" r.item ("settle:" ⧺ r.item) r.now payable acct net "paid to the seller"
            "left provider clearing"
          ∷ []))
    else ok []

-- `releaseOne` for a transfer that is still `on_hold` or `pending`.
unfoldable pub release_one :
    Accounts
    → (lower : String → String) (decimal : Money → String) → Release
    → Result OrderError Released
release_one a lower decimal r = do
  payable ← seller_account a r.seller_id "payable" r.amount.cur
  reserve ← withhold r.amount r.reserve_bps
  held ← reserve_entries a r payable reserve
  after_reserve ← wrap of_money (sub r.amount reserve)
  (applied, taken) ← apply_offsets a lower decimal r.now payable r.offsets after_reserve
  net ← wrap of_money (sub after_reserve applied)
  paid ← settle_entries a r payable net
  ok (record {
    reserve = reserve;
    applied = applied;
    net = net;
    taken = taken;
    before_offsets = held;
    after_offsets = paid;
  })
