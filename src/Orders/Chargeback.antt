-- ===== src/Orders/Chargeback.antt =====
-- internal/modules/orders/webhook.go: the entry of `postChargebackLoss`.
use Prim.Native.String.{String, ◌++◌ as ◌^◌}
use mathlib.Core.List.{◌++◌}
use market_place.Prelude.{
  ℕ, ℤ, Bool, true, false, if◌then◌else◌, none, some, List, [], ◌∷◌, Result, ok, err, ◌>>=◌, wrap,
}
use market_place.Money.Types.{Money, MoneyError, Currency, zero_of, is_positive, is_negative, new}
use market_place.Money.Arith.{sub, abs}
use market_place.Ledger.Types.{debit, credit, Line, Entry}
use market_place.Orders.Types.{OrderError, of_money, Accounts, account_by_code, seller_account}
use market_place.Orders.Refund.{Draft, line_of, book, clearing_account_code, offset_account_code}

-- A row of the order's items with the status of its transfer.
pub record ChargedItem : Type 0 where
  pub seller_id : ℕ
  pub net : ℤ
  pub settled_away : Bool

-- The account that a seller's share is taken back from, and the line's memo.
abbrev pub recovery_account :
    Accounts → (lower : String → String) → Currency → ChargedItem → Result OrderError ℕ
recovery_account a lower cur l =
    if l.settled_away
    then account_by_code a (offset_account_code lower cur)
    else seller_account a (l.seller_id) "payable" cur

abbrev recovery_memo : Bool → String
recovery_memo true = "recoverable from the seller's next settlement"
recovery_memo false = "seller share reversed: chargeback lost before settlement"

-- One round of the loop; a row that is no positive amount is passed over.
abbrev pub recover_net :
    Accounts
    → (lower : String → String) → Currency
    → ChargedItem
    → Draft
    → Result MoneyError Money
    → Result OrderError Draft
recover_net a lower cur l d (err e) = ok d
recover_net a lower cur l d (ok net) =
    if is_positive net
    then (do
      acct ← recovery_account a lower cur l
      book acct net (recovery_memo (l.settled_away)) d)
    else ok d

-- The loop over the items, with the entry's lines and `recovered`.
unfoldable pub recover_all :
    Accounts
    → (lower : String → String) → Currency
    → List ChargedItem
    → Draft
    → Result OrderError Draft
recover_all a lower cur [] d = ok d
recover_all a lower cur (l ∷ ls) d = do
  next ← recover_net a lower cur l d (new (l.net) cur)
  recover_all a lower cur ls next

-- What the platform absorbs, or what it recovers in excess.
unfoldable pub absorb_loss :
    (acct : ℕ) → List Line → (absorbed : Money) → Result OrderError (List Line)
absorb_loss acct lines absorbed =
    if is_positive absorbed
    then ok (
        lines
        ++ (line_of debit acct absorbed "platform share of the charged-back amount, absorbed" ∷ []))
    else if is_negative absorbed
    then (do
      size ← wrap of_money (abs absorbed)
      ok (lines ++ (line_of credit acct size "recovery in excess of the charged-back amount" ∷ [])))
    else ok lines

abbrev pub chargeback_header :
    Currency → (order_public dispute : String) → (now : ℤ) → List Line → Entry
chargeback_header cur order_public dispute now lines = record {
  kind = "chargeback";
  currency = cur;
  occurred_at = some now;
  description = "Chargeback lost on order " ^ order_public;
  reference_type = "order";
  reference_id = order_public;
  idempotency_key = "chargeback:" ^ dispute;
  reverses_entry_id = none;
  lines = lines;
}

-- The entry that `postChargebackLoss` hands to `Post`.
unfoldable pub chargeback_entry :
    Accounts
    → (lower : String → String) → (provider order_public dispute : String) → List ChargedItem
    → (amount : Money) → (now : ℤ) → Result OrderError Entry
chargeback_entry a lower provider order_public dispute items amount now = do
  clearing ← account_by_code a (clearing_account_code provider)
  loss ← account_by_code a "platform.expense.chargeback_loss"
  (lines, recovered) ← recover_all a lower amount.cur items ([], zero_of amount.cur)
  absorbed ← wrap of_money (sub amount recovered)
  closed ← absorb_loss loss lines absorbed
  ok (
      chargeback_header amount.cur order_public dispute now
        (closed ++ (line_of credit clearing amount "debited by the acquirer" ∷ [])))
