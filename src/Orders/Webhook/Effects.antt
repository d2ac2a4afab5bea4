-- ===== src/Orders/Webhook/Effects.antt =====
-- `HandleWebhook` of internal/modules/orders/webhook.go: what a delivery leaves of the rest of the service.
use market_place.Prelude.{
  ℕ, ◌≡◌, ◌⊎◌, inl, inr, refl, sym, ap, subst, true, false, Bool-cases, Result, ok, err,
  Result-cases, arith,
}
use market_place.Bytes.{Bytes}
use market_place.Orders.Webhook.Handler.{
  Event, World, ParseError, invalid_signature, malformed, WebhookOutcome, WebhookError, Faults,
  Claim, mismatched, repeated, claimed, claim_found, claim, outcome, applied, handle_webhook,
}

module _ {R D S E : Type 0} (parse : R → Result ParseError (Event D)) (digest_of : R → Bytes)
    (apply : Event D → S → Result E S) where
  claim-state :
      (f : Faults) (ev : Event D) (g : Bytes) (w : World S E) {c : Claim} {w' : World S E}
      → claim parse digest_of apply f ev g w ≡ ok (c, w')
      → w'.state ≡ w.state
  unfolding claim claim_found
  claim-state f ev g w e = ground arith

  -- What a delivery leaves of the rest of the service: it is as it was, or as the effect of the event that
  -- it brings, and then the outcome says that the event is processed and no duplicate.
  abbrev pub Changed : R → World S E → Result (WebhookError E) WebhookOutcome × World S E → Type 0
  Changed req w h =
      (h.1.state ≡ w.state)
      ⊎ ((ev : Event D) × (parse req ≡ ok ev)
          × (apply ev (w.state) ≡ ok (h.1.state))
          × (h.0 ≡ ok (outcome parse digest_of apply ev true false false)))

  applied-Changed :
      (f : Faults) (now : ℕ) (req : R) (ev : Event D) (w w' : World S E) (result : Result E S)
      → parse req ≡ ok ev
      → w'.state ≡ w.state
      → apply ev (w.state) ≡ result
      → Changed req w (applied parse digest_of apply f now ev w' result)
  applied-Changed f now req ev w w' (err x) reads kept effect = elim (Bool-cases (f.record_fails)) [
    | inl fails ↦ inl (rw fails kept)
    | inr works ↦ inl (rw works kept)
  ]
  applied-Changed f now req ev w w' (ok s) reads kept effect = elim (Bool-cases (f.record_fails)) [
    | inl fails ↦ inr (ev, reads, rw fails effect, refl)
    | inr works ↦ inr (ev, reads, rw works effect, refl)
  ]

  -- A delivery, whatever fails in it, changes the rest of the service only by the effect of the event that
  -- its request holds, and then says so: every other outcome, and every error, leaves it as it was.
  pub handle_webhook-Changed :
      (f : Faults) (now : ℕ) (req : R) (w : World S E)
      → Changed req w (handle_webhook parse digest_of apply f now req w)
  unfolding handle_webhook
  handle_webhook-Changed f now req w = elim (Result-cases (parse req)) [
    | inr (malformed, e) ↦ rw e (inl refl)
    | inr (invalid_signature, e) ↦ rw e (inl (ground arith))
    | inl (ev, e) ↦ elim (Result-cases (claim parse digest_of apply f ev (digest_of req) w)) [
      | inr (x, fails) ↦ inl (rw (e, fails) refl)
      | inl ((mismatched, w'), takes) ↦
          inl (rw (e, takes) (claim-state f ev (digest_of req) w takes))
      | inl ((repeated, w'), takes) ↦ inl (rw (e, takes) (claim-state f ev (digest_of req) w takes))
      | inl ((claimed, w'), takes) ↦
          let kept = claim-state f ev (digest_of req) w takes in
          let way : handle_webhook parse digest_of apply f now req w
              ≡ applied parse digest_of apply f now ev w' (apply ev (w'.state)) =
            rw (e, takes) refl in
          let effect : apply ev (w.state) ≡ apply ev (w'.state) = ap (apply ev) (sym kept) in
          subst (Changed req w) (sym way)
            (applied-Changed f now req ev w w' (apply ev (w'.state)) e kept effect)
    ]
  ]
