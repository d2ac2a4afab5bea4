-- ===== src/Orders/Webhook/Rows.antt =====
-- `HandleWebhook` of internal/modules/orders/webhook.go: the rows of the events, and what is found after a write.
use market_place.Prelude.{
  ℕ, ◌+◌, ◌≤◌, ◌≡◌, inl, inr, refl, ap, false, not, ◌&&◌, if◌then◌else◌, Bool-cases, Option, none,
  some, List, [], ◌∷◌, ◌++◌, Result, ok, err, arith,
}
use market_place.Bytes.{Bytes, equal, equal_sound}
use market_place.Orders.Webhook.Handler.{
  Row, World, WebhookOutcome, WebhookError, Faults, is_done, find_row, update_row,
}

-- Rows: what is found after a write.
module _ {E : Type 0} where
  abbrev pub then_map : (Row E → Row E) → Option (Row E) → Option (Row E)
  then_map f none = none
  then_map f (some r) = some (f r)

  -- A write that keeps the ids.
  abbrev pub Keeps : (Row E → Row E) → Type 0
  Keeps f = (r : Row E) → (f r).event_id ≡ r.event_id

  pub find-update :
      (k : Bytes) (f : Row E → Row E) (rs : List (Row E))
      → Keeps f
      → find_row k (update_row k f rs) ≡ then_map f (find_row k rs)
  unfolding find_row update_row
  find-update k f [] keep = refl
  find-update k f (r ∷ rs) keep = elim (Bool-cases (equal (r.event_id) k)) [
    | inl here ↦ rw (here, keep r, here) refl
    | inr past ↦ rw (past, past) (find-update k f rs keep)
  ]

  pub find-update_other :
      (j k : Bytes) (f : Row E → Row E) (rs : List (Row E))
      → Keeps f
      → equal j k ≡ false
      → find_row k (update_row j f rs) ≡ find_row k rs
  unfolding find_row update_row
  find-update_other j k f [] keep ne = refl
  find-update_other j k f (r ∷ rs) keep ne = elim (Bool-cases (equal (r.event_id) j)) [
    | inl here ↦
        let id : r.event_id ≡ j = equal_sound (r.event_id) j here in
        let away : equal (r.event_id) k ≡ false = rw id ne in
        rw (here, keep r, away) (find-update_other j k f rs keep ne)
    | inr past ↦ rw past (
        ap (λ rest. if equal (r.event_id) k then some r else rest)
          (find-update_other j k f rs keep ne))
  ]

  pub find-add :
      (k : Bytes) (new : Row E) (rs : List (Row E))
      → find_row k rs ≡ none
      → find_row k (rs ++ (new ∷ [])) ≡ (if equal (new.event_id) k then some new else none)
  unfolding find_row
  find-add k new [] e = refl
  find-add k new (r ∷ rs) e = ground (arith, find-add k new rs)

  pub find-add_other :
      (k : Bytes) (new : Row E) (rs : List (Row E))
      → equal (new.event_id) k ≡ false
      → find_row k (rs ++ (new ∷ [])) ≡ find_row k rs
  unfolding find_row
  find-add_other k new [] ne = rw ne
  find-add_other k new (r ∷ rs) ne =
      ap (λ rest. if equal (r.event_id) k then some r else rest) (find-add_other k new rs ne)

  -- The row is done with.
  abbrev pub done : Option (Row E) → ℕ
  done none = 0
  done (some r) = if is_done (r.status) then 1 else 0

  pub done_le : (o : Option (Row E)) → 0 + done o ≤ 1
  done_le none = omega arith
  done_le (some r) = ground arith

  -- Where there is a row, it has this digest.
  abbrev pub Holds : Bytes → Option (Row E) → Type 0
  Holds g none = Unit
  Holds g (some r) = r.digest ≡ g

module _ {E : Type 0} where
  -- Whether a delivery has applied the event of an id.
  abbrev pub application : Bytes → Result (WebhookError E) WebhookOutcome → ℕ
  application k (ok o) =
      if o.is_processed && not (o.is_duplicate) && equal (o.event_id) k then 1 else 0
  application k (err e) = 0

module _ {S E : Type 0} where
  -- The row of an id.
  abbrev pub slot : Bytes → World S E → Option (Row E)
  slot k w = find_row k (w.rows)

-- A delivery in which nothing fails.
abbrev pub sound : Faults
sound = record {
  lookup_fails = false;
  insert_fails = false;
  mark_fails = false;
  audit_fails = false;
  commit_fails = false;
  record_fails = false;
}
