-- ===== src/Orders/Dispute/Types.antt =====
-- Disputes of internal/modules/orders/webhook.go: the rows that `onDispute` reads and writes, the networks
-- and their windows. The store holds one payment's order. A time is in nanoseconds.
use Prim.Native.String.{String}
use text.Mathlib.Text.{◌==◌ as str_eq}
use market_place.Prelude.{ℕ, ◌*◌, ◌^◌, ℤ, pos, Bool, ◌||◌, if◌then◌else◌, Option, none, some, List}
use market_place.Money.Types.{Money, Currency}
use market_place.Ledger.Types.{Journal}
use market_place.Orders.Types.{Status, OrderError}

-- The statuses of `payment_transfers` and `chargebacks`.
pub data TransferStatus : Type 0 where
  pending on_hold created processed reversed failed cancelled : TransferStatus

pub data CaseStatus : Type 0 where
  received evidence_required evidence_submitted won lost accepted expired : CaseStatus

abbrev pub Time : Type 0
Time = ℤ

pub record Transfer : Type 0 where
  pub status : TransferStatus
  pub hold_until : Option Time

-- An item of the order with its transfer.
pub record Item : Type 0 where
  pub item_id : ℕ
  pub seller_id : ℕ
  pub net : ℤ
  pub transfer : Option Transfer
  pub charged_back : Bool

-- A row of `chargebacks`.
pub record Case : Type 0 where
  pub dispute : String
  pub network : String
  pub reason_code : Option String
  pub amount : Money
  pub status : CaseStatus
  pub respond_by : Time

-- A row of `settlement_offsets` of a chargeback.
pub record OffsetRow : Type 0 where
  pub seller_id : ℕ
  pub origin_id : ℕ
  pub amount : Money

pub data DisputeKind : Type 0 where
  opened was_won was_lost closed : DisputeKind

pub record Store : Type 0 where
  pub payment : String
  pub order_public : String
  pub currency : Currency
  pub status : Status
  pub items : List Item
  pub cases : List Case
  pub offsets : List OffsetRow
  pub journal : Journal
  pub moves : List (Status × Status)
  pub outbox : List String
  pub audit : List DisputeKind

-- `ev.Raw["dispute"]`, of which three texts are read.
pub record RawDispute : Type 0 where
  pub network : Option String
  pub card_network : Option String
  pub reason_code : Option String

pub record DisputeEvent : Type 0 where
  pub kind : DisputeKind
  pub dispute : String
  pub payment : String
  pub amount : Option Money
  pub raw : Option RawDispute

-- An error of the order, or a row that a CHECK of the database refuses.
pub data DisputeError : Type 0 where
  of_order : OrderError → DisputeError
  amount_refused : DisputeError

abbrev pub hour : ℕ
hour = 3600 * 10 ^ 9

-- `representmentWindow`
unfoldable pub representment_window : String → ℤ
representment_window network =
    if str_eq network "rupay"
    then pos (7 * 24 * hour)
    else if str_eq network "visa" || str_eq network "mastercard"
    then pos (10 * 24 * hour)
    else if str_eq network "amex" || str_eq network "diners"
    then pos (20 * 24 * hour)
    else pos (7 * 24 * hour)

-- `normaliseNetwork` of a text in lower case.
abbrev pub canonical_network : String → String
canonical_network n =
    if str_eq n "visa"
    then "visa"
    else if str_eq n "mastercard" || str_eq n "master card" || str_eq n "mc"
    then "mastercard"
    else if str_eq n "rupay"
    then "rupay"
    else if str_eq n "amex" || str_eq n "american express"
    then "amex"
    else if str_eq n "diners" || str_eq n "diners club"
    then "diners"
    else if str_eq n "upi"
    then "upi"
    else "other"

-- A text that is there and not empty.
abbrev pub filled : Option String → Option String
filled none = none
filled (some c) = if str_eq c "" then none else some c

module _ (lower : String → String) where
  -- `normaliseNetwork`
  unfoldable pub normalise_network : String → String
  normalise_network n = canonical_network (lower n)

  abbrev first_network : (network card_network : Option String) → String
  first_network (some n) c = normalise_network n
  first_network none (some c) = normalise_network c
  first_network none none = "other"

  -- `networkFromRaw`
  unfoldable pub network_from_raw : Option RawDispute → String
  network_from_raw none = "other"
  network_from_raw (some d) = first_network (filled (d.network)) (filled (d.card_network))

-- `reasonCodeFromRaw` with `nullIfEmpty`.
abbrev pub reason_code_from_raw : Option RawDispute → Option String
reason_code_from_raw none = none
reason_code_from_raw (some d) = filled (d.reason_code)
