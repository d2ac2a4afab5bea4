-- ===== src/Orders/Dispute/Handler.antt =====
-- `onDispute` of internal/modules/orders/webhook.go, and what `postChargebackLoss` writes besides its entry.
-- Each event is a transaction: an error leaves the store as it was. Metrics and the texts of the
-- records are left out.
use Prim.Native.String.{String}
use text.Mathlib.Text.{◌==◌ as str_eq}
use market_place.Prelude.{
  ℕ, ◌*◌, pos, ◌+ℤ◌, ltb_ℤ, Bool, true, false, not, ◌&&◌, ◌||◌, if◌then◌else◌, Option, none, some,
  List, [], ◌∷◌, ◌++◌, map, Result, ok, err, ◌>>=◌, ◌>>◌, refuse_if, wrap,
}
use market_place.Money.Types.{Money, MoneyError, Currency, zero_of, is_positive, new}
use market_place.Ledger.Types.{Journal, Posted, LedgerError}
use market_place.Ledger.Post.{Faults, post}
use market_place.Orders.Types.{
  Status, disputed, fulfilled, chargeback_lost, OrderError, concurrent_transition, of_ledger,
  Accounts,
}
use market_place.Orders.Machine.{transition, same_status}
use market_place.Orders.Chargeback.{ChargedItem, chargeback_entry}
use market_place.Orders.Dispute.Types.{
  TransferStatus, pending, on_hold, processed, cancelled, CaseStatus, evidence_required, won, lost,
  Time, Transfer, Item, Case, OffsetRow, DisputeKind, opened, was_won, was_lost, closed, Store,
  DisputeEvent, DisputeError, of_order, amount_refused, hour, representment_window,
  network_from_raw, reason_code_from_raw,
}

abbrev is_processed : TransferStatus → Bool
is_processed processed = true
is_processed _ = false

-- `settledAway`
abbrev pub is_settled_away : Option Transfer → Bool
is_settled_away none = false
is_settled_away (some t) = is_processed (t.status)

-- The row of the query of `postChargebackLoss`.
abbrev pub charged_item : Item → ChargedItem
charged_item i = record {
  seller_id = i.seller_id;
  net = i.net;
  settled_away = is_settled_away (i.transfer);
}

-- Whether the loop passes an item over.
abbrev pub is_recovered : Result MoneyError Money → Bool
is_recovered (err e) = false
is_recovered (ok net) = is_positive net

abbrev cancel : Option Transfer → Option Transfer
cancel none = none
cancel (some t) = if is_processed (t.status) then some t else some (record t { status = cancelled })

-- What the loop of `postChargebackLoss` writes to an item and its transfer.
abbrev pub charge_back : Currency → Item → Item
charge_back cur i =
    if is_recovered (new (i.net) cur)
    then record i { transfer = cancel (i.transfer); charged_back = true }
    else i

-- The offsets that it inserts.
unfoldable pub loss_offsets : Currency → List Item → List OffsetRow
loss_offsets cur [] = []
loss_offsets cur (i ∷ is) =
    let rest = loss_offsets cur is in
    if is_recovered (new (i.net) cur) && is_settled_away (i.transfer)
    then (record {
      seller_id = i.seller_id;
      origin_id = i.item_id;
      amount = record { minor = i.net; cur = cur };
    }
        ∷ rest)
    else rest

-- The insert of the case, which a CHECK refuses unless the amount is positive, and which a case of the
-- same dispute makes do nothing.
unfoldable pub has_case : String → List Case → Bool
has_case dispute [] = false
has_case dispute (c ∷ cs) = str_eq (c.dispute) dispute || has_case dispute cs

unfoldable pub insert_case : Case → List Case → Result DisputeError (List Case)
insert_case c cs = do
  refuse_if (not (is_positive (c.amount))) amount_refused
  ok (if has_case (c.dispute) cs then cs else cs ++ (c ∷ []))

-- `UPDATE chargebacks SET status = …`
unfoldable pub resolve_case : String → CaseStatus → List Case → List Case
resolve_case dispute s [] = []
resolve_case dispute s (c ∷ cs) =
    let rest = resolve_case dispute s cs in
    if str_eq (c.dispute) dispute then record c { status = s } ∷ rest else c ∷ rest

-- `GREATEST(hold_until, …)`, which passes over a NULL.
abbrev pub greatest : Option Time → Time → Time
greatest none t = t
greatest (some s) t = if ltb_ℤ s t then t else s

abbrev pub is_held : TransferStatus → Bool
is_held pending = true
is_held on_hold = true
is_held _ = false

abbrev pub freeze_transfer : Time → Option Transfer → Option Transfer
freeze_transfer until none = none
freeze_transfer until (some t) =
    if is_held (t.status)
    then some (record { status = on_hold; hold_until = some (greatest (t.hold_until) until) })
    else some t

-- The freeze of an item's transfer.
abbrev pub freeze : Time → Item → Item
freeze until i = record i { transfer = freeze_transfer until (i.transfer) }

-- `transition`, of which `onDispute` lets an order that has moved pass.
abbrev pub moved : Store → (from : Status) → Result OrderError Status → Result DisputeError Store
moved st from (ok to) = ok (record st { status = to; moves = st.moves ++ ((from, to) ∷ []) })
moved st from (err concurrent_transition) = ok st
moved st from (err e) = err (of_order e)

unfoldable pub move : Store → (from to : Status) → Result DisputeError Store
move st from to = moved st from (transition (st.status) from to)

-- `ev.Amount`, or 0 without one.
abbrev pub amount_of : Currency → Option Money → Money
amount_of cur none = zero_of cur
amount_of cur (some m) = m

-- What the clock and package ids give, and how the database fails, while one event is handled.
pub record Context : Type 0 where
  pub now : Time
  pub entry_id : ℕ
  pub entry_public : String
  pub faults : Faults

module _ (a : Accounts) (lower : String → String) (provider : String) where
  abbrev pub posted :
      Store → Currency → Result LedgerError Posted × Journal → Result OrderError Store
  posted st cur (err e, j) = err (of_ledger e)
  posted st cur (ok p, j) = ok (record st {
    journal = j;
    items = map (charge_back cur) (st.items);
    offsets = st.offsets ++ loss_offsets cur (st.items);
  })

  -- `postChargebackLoss`
  unfoldable pub post_chargeback_loss :
      Context → Store → (amount : Money) → (dispute : String) → Result OrderError Store
  post_chargeback_loss c st amount dispute = do
    e ←
        chargeback_entry a lower provider (st.order_public) dispute (map charged_item (st.items))
          amount (c.now)
    posted st (amount.cur) (post (c.faults) (c.entry_id) (c.entry_public) (c.now) e (st.journal))

  abbrev pub opened_case : Context → DisputeEvent → (amount : Money) → Case
  opened_case c ev amount =
      let network = network_from_raw lower (ev.raw) in
      record {
        dispute = ev.dispute;
        network = network;
        reason_code = reason_code_from_raw (ev.raw);
        amount = amount;
        status = evidence_required;
        respond_by = c.now +ℤ representment_window network;
      }

  -- The three cases of the switch.
  unfoldable pub open_dispute :
      Context → DisputeEvent → (amount : Money) → Store → Result DisputeError Store
  open_dispute c ev amount st = do
    cases ← insert_case (opened_case c ev amount) (st.cases)
    let recorded = record st { cases = cases }
    contested ←
        if same_status (st.status) disputed then ok recorded else move recorded (st.status) disputed
    let until =
        c.now +ℤ representment_window (network_from_raw lower (ev.raw)) +ℤ pos (30 * 24 * hour)
    ok (record contested {
      items = map (freeze until) (contested.items);
      outbox = contested.outbox ++ (contested.order_public ∷ []);
    })

  unfoldable pub win_dispute : DisputeEvent → Store → Result DisputeError Store
  win_dispute ev st =
      move (record st { cases = resolve_case (ev.dispute) won (st.cases) }) disputed fulfilled

  unfoldable pub lose_dispute :
      Context → DisputeEvent → (amount : Money) → Store → Result DisputeError Store
  lose_dispute c ev amount st = do
    booked ← wrap of_order (
        post_chargeback_loss c (record st { cases = resolve_case (ev.dispute) lost (st.cases) })
          amount (ev.dispute))
    move booked disputed chargeback_lost

  abbrev pub by_kind :
      Context → DisputeEvent → (amount : Money) → Store → DisputeKind → Result DisputeError Store
  by_kind c ev amount st opened = open_dispute c ev amount st
  by_kind c ev amount st was_won = win_dispute ev st
  by_kind c ev amount st was_lost = lose_dispute c ev amount st
  by_kind c ev amount st closed = ok st

  -- `onDispute`; an event that names no dispute, no payment or another payment does nothing.
  unfoldable pub on_dispute : Context → DisputeEvent → Store → Result DisputeError Store
  on_dispute c ev st =
      if str_eq (ev.dispute) "" || str_eq (ev.payment) "" || not (str_eq (st.payment) (ev.payment))
      then ok st
      else (do
        after ← by_kind c ev (amount_of (st.currency) (ev.amount)) st (ev.kind)
        ok (record after { audit = after.audit ++ (ev.kind ∷ []) }))
