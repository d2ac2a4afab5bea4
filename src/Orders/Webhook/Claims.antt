-- ===== src/Orders/Webhook/Claims.antt =====
-- `HandleWebhook` of internal/modules/orders/webhook.go: what the claiming transaction makes of an event's row.
use market_place.Prelude.{
  ◌≡◌, ◌⊎◌, inl, inr, refl, sym, ◌∙◌, ap, subst, true, false, ◌||◌, Bool-cases, Option-cases, none,
  some, [], ◌∷◌, ◌++◌, Result, ok, arith,
}
use market_place.Bytes.{Bytes, equal, equal_refl}
use market_place.Orders.Webhook.Handler.{
  Event, Row, World, ParseError, Faults, Claim, repeated, claimed, is_done, mark_replay, new_row,
  claim_found, claim,
}
use market_place.Orders.Webhook.Rows.{
  find-update_other, find-add, find-add_other, done, Holds, slot, sound,
}

module _ {R D S E : Type 0} (parse : R → Result ParseError (Event D)) (digest_of : R → Bytes)
    (apply : Event D → S → Result E S) where
  -- A claim with the digest that the row has: a repetition, or a row that is there and not done with.
  abbrev pub Took : (k g : Bytes) → (before after : World S E) → Claim → Type 0
  Took k g w w' c =
      ((c ≡ repeated) × (w' ≡ w) × (done (slot k w) ≡ 1))
      ⊎ ((c ≡ claimed)
          × (r : Row E) × (slot k w' ≡ some r)
          × (r.digest ≡ g)
          × (done (slot k w) ≡ 0))

  take_new :
      (f : Faults) (ev : Event D) (g : Bytes) (w : World S E) {c : Claim} {w' : World S E}
      → slot (ev.event_id) w ≡ none
      → claim_found parse digest_of apply f ev g w none ≡ ok (c, w')
      → Took (ev.event_id) g w w' c
  unfolding claim_found
  take_new f ev g w none_there e =
      let fresh = new_row parse digest_of apply ev g in
      let placed = find-add (ev.event_id) fresh (w.rows) none_there in
      let own = equal_refl (ev.event_id) in
      let empty : done (slot (ev.event_id) w) ≡ 0 = rw none_there refl in
      inr (ground arith, fresh, ground arith, refl, empty)

  take_old :
      (f : Faults) (ev : Event D) (g : Bytes) (w : World S E) (r : Row E) {c : Claim}
      {w' : World S E}
      → slot (ev.event_id) w ≡ some r
      → r.digest ≡ g
      → claim_found parse digest_of apply f ev g w (some r) ≡ ok (c, w')
      → Took (ev.event_id) g w w' c
  unfolding claim_found
  take_old f ev g w r there same e =
      let alike : equal (r.digest) g ≡ true = rw same (equal_refl g) in
      let how : done (slot (ev.event_id) w) ≡ done (some r) = ap done there in
      elim (Bool-cases (is_done (r.status))) [
        | inl over ↦ inl (ground arith, ground arith, how ∙ rw over refl)
        | inr open_row ↦ inr (ground arith, r, ground arith, same, how ∙ rw open_row refl)
      ]

  pub claim-Took :
      (f : Faults) (ev : Event D) (g : Bytes) (w : World S E) {c : Claim} {w' : World S E}
      → Holds g (slot (ev.event_id) w)
      → claim parse digest_of apply f ev g w ≡ ok (c, w')
      → Took (ev.event_id) g w w' c
  unfolding claim
  claim-Took f ev g w held e = elim (Bool-cases (f.lookup_fails || f.commit_fails)) [
    | inl fails ↦ absurd (let bad = rw (fails, claim) at e in cc)
    | inr works ↦
        let found = rw (works, claim) at e in
        elim (Option-cases (slot (ev.event_id) w)) [
          | inl missing ↦ take_new f ev g w missing (rw missing at found)
          | inr (r, there) ↦
              take_old f ev g w r there (subst (Holds g) there held) (rw there at found)
        ]
  ]

  -- An event of another id leaves the row.
  pub claim_other :
      (f : Faults) (ev : Event D) (g k : Bytes) (w : World S E) {c : Claim} {w' : World S E}
      → equal (ev.event_id) k ≡ false
      → claim parse digest_of apply f ev g w ≡ ok (c, w')
      → slot k w' ≡ slot k w
  unfolding claim claim_found
  claim_other f ev g k w ne e = ground (
    arith,
    find-add_other k (new_row parse digest_of apply ev g) (w.rows),
    find-update_other (ev.event_id) k mark_replay (w.rows) (λ r. refl),
  )

  pub claim_open :
      (ev : Event D) (g : Bytes) (w : World S E)
      → Holds g (slot (ev.event_id) w)
      → done (slot (ev.event_id) w) ≡ 0
      → (w' : World S E) × (claim parse digest_of apply sound ev g w ≡ ok (claimed, w'))
        × (w'.state ≡ w.state)
  unfolding claim claim_found
  claim_open ev g w held free = elim (Option-cases (slot (ev.event_id) w)) [
    | inl missing ↦ (
      record w { rows = w.rows ++ (new_row parse digest_of apply ev g ∷ []) },
      rw (missing, claim, claim_found) refl,
      refl,
    )
    | inr (r, there) ↦
        let same : r.digest ≡ g = subst (Holds g) there held in
        let alike : equal (r.digest) g ≡ true = rw same (equal_refl g) in
        let how : done (some r) ≡ 0 = sym (ap done there) ∙ free in
        let open_row : is_done (r.status) ≡ false = ground arith in
        (w, rw (there, claim, claim_found, alike, open_row) refl, refl)
  ]
