-- ===== src/Orders/Webhook/Tests.antt =====
-- `HandleWebhook` of internal/modules/orders/webhook.go on given requests, and the theorems at inputs.
use market_place.Prelude.{ℕ, suc, ◌≡◌, refl, true, none, some, List, [], ◌∷◌, Result, ok, err}
use market_place.Bytes.{Bytes}
use market_place.Orders.Webhook.Handler.{
  processed, Event, Row, World, ParseError, malformed, Faults, Delivery, find_row, handle_webhook,
}
use market_place.Orders.Webhook.Rows.{application, sound, slot}
use market_place.Orders.Webhook.Once.{replay_reapplies}
use market_place.Orders.Webhook.Effects.{Changed, handle_webhook-Changed}

-- A request with the id in its header; a body of no bytes does not parse.
abbrev Request : Type 0
Request = Bytes × Bytes

abbrev parse : Request → Result ParseError (Event (Unit {0}))
parse (id, []) = err malformed
parse (id, b ∷ bs) = ok (record { event_id = id; event_type = b ∷ bs; detail = tt })

-- The bytes stand for their digest.
abbrev body : Request → Bytes
body (id, b) = b

-- Every event counts one more.
abbrev count : Event (Unit {0}) → ℕ → Result (Unit {0}) ℕ
count ev n = ok (suc n)

abbrev empty : World ℕ (Unit {0})
empty = record { rows = []; audit = []; state = 0 }

abbrev paid_order : Request
paid_order = (7 ∷ [], 1 ∷ 2 ∷ [])

abbrev event : Event (Unit {0})
event = record { event_id = 7 ∷ []; event_type = 1 ∷ 2 ∷ []; detail = tt }

abbrev other_event : Event (Unit {0})
other_event = record { event_id = 7 ∷ []; event_type = 9 ∷ []; detail = tt }

abbrev lookup_down : Faults
lookup_down = record sound { lookup_fails = true }

abbrev again : List (Delivery Request)
again =
    record { faults = lookup_down; now = 2; request = paid_order }
    ∷ record { faults = sound; now = 3; request = paid_order }
    ∷ record { faults = sound; now = 4; request = (8 ∷ [], 5 ∷ []) }
    ∷ []

-- The event has been processed.
abbrev row : Row (Unit {0})
row = record {
  event_id = 7 ∷ [];
  event_type = 1 ∷ 2 ∷ [];
  digest = 1 ∷ 2 ∷ [];
  status = processed;
  attempts = 1;
  processed_at = some 1;
  last_error = none;
}

abbrev settled : World ℕ (Unit {0})
settled = record { rows = row ∷ []; audit = []; state = 1 }

found : slot (7 ∷ []) settled ≡ some row
unfolding find_row
found = refl

replay_reapplies_example :
    (application (7 ∷ []) (
        (handle_webhook parse body count sound 2 paid_order
          ((handle_webhook parse body count sound 2 (7 ∷ [], 9 ∷ []) settled).1)).0)
      ≡ 1)
    × ((handle_webhook parse body count sound 2 paid_order
          ((handle_webhook parse body count sound 2 (7 ∷ [], 9 ∷ []) settled).1)).1.state
        ≡ 2)
replay_reapplies_example =
    replay_reapplies parse body count 2 paid_order (7 ∷ [], 9 ∷ []) event other_event settled row 2
      refl refl refl found refl refl refl

handle_webhook-Changed_example :
    Changed parse body count paid_order settled
      (handle_webhook parse body count lookup_down 2 paid_order settled)
handle_webhook-Changed_example =
    handle_webhook-Changed parse body count lookup_down 2 paid_order settled
