-- ===== src/Orders/Types.antt =====
-- The types of internal/modules/orders/types.go. A UUID is its 128-bit number.
use Prim.Native.String.{String}
use market_place.Prelude.{ℕ, Bool, Option, none, some, List, Result, ok, err}
use market_place.Money.Types.{Money, MoneyError, Currency}
use market_place.Ledger.Types.{LedgerError}
use market_place.Tax.Types.{Breakdown}

-- `type Status string`
pub data Status : Type 0 where
  draft awaiting_payment payment_failed paid fulfilled completed cancelled expired : Status
  refund_pending partially_refunded refunded disputed chargeback_lost : Status

pub record LineBreakdown : Type 0 where
  pub item_id : ℕ
  pub item_public_id : String
  pub product_id : ℕ
  pub seller_id : ℕ
  pub breakdown : Breakdown

pub record Order : Type 0 where
  pub id : ℕ
  pub public_id : String
  pub number : String
  pub buyer_id : ℕ
  pub status : Status
  pub currency : Currency
  pub grand_total : Money
  pub refunded_total : Money
  pub lines : List LineBreakdown

pub record RefundRequest : Type 0 where
  pub item_public_id : String
  pub amount : Option Money
  pub requested_by : ℕ
  pub actor_is_staff : Bool

-- The errors that a refund or a capture returns.
pub data OrderError : Type 0 where
  order_not_found not_refundable item_required item_not_found : OrderError
  sold_without_refund already_downloaded window_closed case_by_case : OrderError
  refund_currency_mismatch refund_not_positive refund_too_large refund_exceeds_paid : OrderError
  account_missing : String → OrderError
  illegal_transition : Status → Status → OrderError
  concurrent_transition : OrderError
  of_money : MoneyError → OrderError
  of_ledger : LedgerError → OrderError

-- What the queries of `AccountByCode` and `SellerAccount` find in the database.
pub record Accounts : Type 0 where
  pub by_code : String → Option ℕ
  pub of_seller : ℕ → String → Currency → Option ℕ

abbrev found : String → Option ℕ → Result OrderError ℕ
found what none = err (account_missing what)
found what (some id) = ok id

unfoldable pub account_by_code : Accounts → String → Result OrderError ℕ
account_by_code a code = found code (a.by_code code)

unfoldable pub seller_account :
    Accounts → (seller : ℕ) → (purpose : String) → Currency → Result OrderError ℕ
seller_account a seller purpose c = found purpose (a.of_seller seller purpose c)
