-- ===== src/Orders/Dispute/Tests.antt =====
-- `onDispute` of internal/modules/orders/webhook.go on a given order, and the theorems at inputs.
use Prim.Native.String.{String}
use market_place.Prelude.{
  ◌≡◌, ◌⊎◌, refl, pos, true, false, none, some, [], ◌∷◌, ◌++◌, ◌+◌, All, Result, ok, err, Ends,
  ◌+ℤ◌,
}
use market_place.Prelude.{◌-ℤ◌, add64, neg64, wrap64}
use market_place.Money.Types.{is_positive, new, is_valid, exponent}
use market_place.Money.Arith.{add, sub, neg}
use market_place.Ledger.Post.{
  post, validate, check_lines, check_line, find_key, insert_entry, insert_lines, replay_or_insert,
  tally,
}
use market_place.Orders.Refund.{clearing_account_code}
use market_place.Orders.Types.{fulfilled, disputed, Accounts, account_by_code}
use market_place.Orders.Machine.{transition, allowed}
use market_place.Orders.Chargeback.{chargeback_entry, recover_all, absorb_loss}
use market_place.Orders.Dispute.Types.{
  on_hold, Transfer, Item, opened, was_won, was_lost, lost, Store, DisputeEvent, DisputeError,
}
use market_place.Orders.Dispute.Handler.{
  has_case, resolve_case, amount_of, Context, opened_case, on_dispute, lose_dispute,
  post_chargeback_loss, move, loss_offsets,
}
use market_place.Orders.Dispute.Cases.{can_contest, HeldUntil, hold}
use market_place.Orders.Dispute.Opening.{on_dispute-opened}
use market_place.Orders.Dispute.Verdicts.{Refusal, on_dispute-verdict, lost_before_opened}

abbrev accounts : Accounts
accounts = record { by_code = λ _. some 7; of_seller = λ s _ _. some (s + 1) }

abbrev same : String → String
same s = s

abbrev context : Context
context = record {
  now = pos 1_000;
  entry_id = 1;
  entry_public = "jrn_1";
  faults = record { at_lookup = false; at_entry = false; at_line = λ _. false };
}

abbrev held_transfer : Transfer
held_transfer = record { status = on_hold; hold_until = some (pos 5_000) }

abbrev item : Item
item = record {
  item_id = 1;
  seller_id = 2;
  net = pos 0;
  transfer = some held_transfer;
  charged_back = false;
}

abbrev store : Store
store = record {
  payment = "pay_1";
  order_public = "ord_1";
  currency = "INR";
  status = fulfilled;
  items = item ∷ [];
  cases = [];
  offsets = [];
  journal = record { entries = []; lines = [] };
  moves = [];
  outbox = [];
  audit = [];
}

abbrev in_dispute : Store
in_dispute = record store { status = disputed }

abbrev event : DisputeEvent
event = record {
  kind = opened;
  dispute = "dsp_1";
  payment = "pay_1";
  amount = some (record { minor = pos 900; cur = "INR" });
  raw = none;
}

abbrev win : DisputeEvent
win = record event { kind = was_won }

abbrev loss : DisputeEvent
loss = record event { kind = was_lost }

on_dispute-opened_example :
    Ends
      (λ _.
        (is_positive (amount_of "INR" (event.amount)) ≡ false) ⊎ (can_contest fulfilled ≡ false))
      (λ st'.
        (is_positive (amount_of "INR" (event.amount)) ≡ true)
        × (can_contest fulfilled ≡ true)
        × (st'.status ≡ disputed)
        × (has_case "dsp_1" (st'.cases) ≡ true)
        × All (λ i. HeldUntil (hold same context event) (i.transfer)) (st'.items))
      (on_dispute accounts same "mor" context event store)
on_dispute-opened_example = on_dispute-opened accounts same "mor" context event store refl refl

on_dispute-verdict_example :
    Ends
      (λ _. Refusal accounts same "mor" context win in_dispute was_won)
      (λ st'. st'.status ≡ fulfilled)
      (on_dispute accounts same "mor" context win in_dispute)
on_dispute-verdict_example = on_dispute-verdict accounts same "mor" context win in_dispute refl refl

abbrev stays : Result DisputeError Store → Store
stays (ok st) = st
stays (err e) = store

abbrev after : Store
after = stays (on_dispute accounts same "mor" context loss store)

lost_first : on_dispute accounts same "mor" context loss store ≡ ok after
unfolding on_dispute lose_dispute post_chargeback_loss chargeback_entry account_by_code recover_all
    new is_valid exponent sub neg add neg64 wrap64 ◌-ℤ◌ absorb_loss add64 ◌+ℤ◌ post validate
    check_lines check_line find_key insert_entry insert_lines replay_or_insert tally loss_offsets
    move resolve_case transition allowed clearing_account_code
lost_first = refl

lost_before_opened_example :
    (st' : Store) × (on_dispute accounts same "mor" context event after ≡ ok st')
    × (st'.status ≡ disputed)
    × (st'.cases
        ≡ resolve_case "dsp_1" lost []
          ++ (opened_case accounts same "mor" context event (amount_of "INR" (event.amount)) ∷ []))
    × (st'.journal ≡ after.journal)
unfolding has_case
lost_before_opened_example =
    lost_before_opened accounts same "mor" context context loss event store after refl refl refl
      refl refl refl refl refl lost_first
