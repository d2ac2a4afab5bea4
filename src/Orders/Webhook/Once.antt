-- ===== src/Orders/Webhook/Once.antt =====
-- `HandleWebhook` of internal/modules/orders/webhook.go under many deliveries: how often an event is applied.
use market_place.Prelude.{ℕ, ◌+◌, ◌≤◌, ◌≡◌, refl, ◌∙◌, ap, false, some, List, [], ◌∷◌, Result, ok}
use market_place.Bytes.{Bytes, equal, equal_refl}
use market_place.Orders.Webhook.Handler.{
  Event, Row, World, ParseError, WebhookOutcome, WebhookError, mark_replay, claim_found, claim,
  handle_webhook, Delivery,
}
use market_place.Orders.Webhook.Rows.{then_map, find-update, done, Holds, slot, application, sound}
use market_place.Orders.Webhook.Claims.{claim_open}

module _ {R D S E : Type 0} (parse : R → Result ParseError (Event D)) (digest_of : R → Bytes)
    (apply : Event D → S → Result E S) where
  -- A delivery keeps the row's digest; what it applies is done with behind it, and was not before.
  abbrev Step :
      (k g : Bytes) → World S E → Result (WebhookError E) WebhookOutcome × World S E → Type 0
  Step k g w h =
      Holds g (slot k (h.1)) × (application k (h.0) + done (slot k w) ≤ done (slot k (h.1)))

  -- The deliveries of an id all bring the bytes of this digest, and their bookkeeping works.
  abbrev pub IsGenuine : (k g : Bytes) → Delivery R → Type 0
  IsGenuine k g d =
      (d.faults.record_fails ≡ false)
      × ((ev : Event D) → parse (d.request) ≡ ok ev → ev.event_id ≡ k → digest_of (d.request) ≡ g)

  -- How often a run of deliveries applies the event of an id.
  unfoldable pub applications : Bytes → List (Delivery R) → World S E → ℕ
  applications k [] w = 0
  applications k (d ∷ ds) w =
      let h = handle_webhook parse digest_of apply (d.faults) (d.now) (d.request) w in
      application k (h.0) + applications k ds (h.1)

  module _ (now : ℕ) (req : R) (ev : Event D) (w : World S E) (s : S) (reads : parse req ≡ ok ev)
      (held : Holds (digest_of req) (slot (ev.event_id) w)) (free : done (slot (ev.event_id) w) ≡ 0)
      (effect : apply ev (w.state) ≡ ok s) where
    sound-application :
        (application (ev.event_id) ((handle_webhook parse digest_of apply sound now req w).0) ≡ 1)
        × ((handle_webhook parse digest_of apply sound now req w).1.state ≡ s)
    unfolding handle_webhook
    sound-application =
        let (w', takes, kept) = claim_open parse digest_of apply ev (digest_of req) w held free in
        let done_so : apply ev (w'.state) ≡ ok s = rw kept effect in
        rw (reads, takes, done_so, equal_refl (ev.event_id)) (refl, refl)

  -- Other bytes under the id of a row mark the row, and change nothing else but the audit log.
  marks :
      (now : ℕ) (other : R) (ev' : Event D) (w : World S E) (r : Row E)
      → parse other ≡ ok ev'
      → slot (ev'.event_id) w ≡ some r
      → equal (r.digest) (digest_of other) ≡ false
      → (slot (ev'.event_id) ((handle_webhook parse digest_of apply sound now other w).1)
          ≡ some (mark_replay r))
        × ((handle_webhook parse digest_of apply sound now other w).1.state ≡ w.state)
  unfolding handle_webhook claim claim_found
  marks now other ev' w r reads there differs =
      rw (reads, there, claim_found, differs)
        (
          find-update (ev'.event_id) mark_replay (w.rows) (λ x. refl)
              ∙ ap (then_map mark_replay) there,
          refl,
        )

  -- An event that has a row, processed or not, is applied again when its id comes once with other bytes
  -- and then with its own, if nothing fails and its effect succeeds.
  pub replay_reapplies :
      (now : ℕ) (req other : R) (ev ev' : Event D) (w : World S E) (r : Row E) (s : S)
      → parse req ≡ ok ev
      → parse other ≡ ok ev'
      → ev'.event_id ≡ ev.event_id
      → slot (ev.event_id) w ≡ some r
      → r.digest ≡ digest_of req
      → equal (r.digest) (digest_of other) ≡ false
      → apply ev (w.state) ≡ ok s
      → let between = handle_webhook parse digest_of apply sound now other w in
        let last = handle_webhook parse digest_of apply sound now req (between.1) in
        (application (ev.event_id) (last.0) ≡ 1) × (last.1.state ≡ s)
  replay_reapplies now req other ev ev' w r s reads reads' same there mine differs effect =
      let there' : slot (ev'.event_id) w ≡ some r = rw same there in
      let (marked', kept) = marks now other ev' w r reads' there' differs in
      let between = (handle_webhook parse digest_of apply sound now other w).1 in
      let marked : slot (ev.event_id) between ≡ some (mark_replay r) = rw (← same) marked' in
      sound-application now req ev between s reads (rw marked mine) (rw marked refl)
        (rw kept effect)
