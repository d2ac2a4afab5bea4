-- ===== src/Orders/Dispute/Opening.antt =====
-- `onDispute` of internal/modules/orders/webhook.go: what the opening of a dispute leaves.
use Prim.Native.String.{String}
use text.Mathlib.Text.{◌==◌ as str_eq}
use market_place.Prelude.{
  ◌≡◌, ◌⊎◌, inl, inr, refl, ◌∙◌, ap, true, false, not, ◌||◌, Bool-cases, List, [], ◌∷◌, ◌++◌, map,
  All, Result, ok, err, ◌>>=◌, Ends, returns, fails,
}
use market_place.Money.Types.{Money, is_positive}
use market_place.Orders.Types.{Status, disputed, illegal_transition, Accounts}
use market_place.Orders.Machine.{same_status}
use market_place.Orders.Dispute.Types.{
  DisputeKind, opened, Store, DisputeEvent, DisputeError, of_order, amount_refused,
}
use market_place.Orders.Dispute.Handler.{
  freeze, has_case, move, amount_of, Context, opened_case, open_dispute, by_kind, on_dispute,
}
use market_place.Orders.Dispute.Cases.{
  can_contest, HeldUntil, map_freeze-HeldUntil, contest-ok, contest-err, with_case,
  has_case-with_case, insert-ok, insert-err, same_status_sound, hold,
}

module _ (a : Accounts) (lower : String → String) (provider : String) where
  -- What the opening of a dispute leaves.
  abbrev pub Opened : Context → DisputeEvent → Money → Store → Store → Type 0
  Opened c ev amount st st' =
      (st'.status ≡ disputed)
      × (st'.cases ≡ with_case (opened_case a lower provider c ev amount) (st.cases))
      × (st'.items ≡ map (freeze (hold lower c ev)) (st.items))
      × (st'.journal ≡ st.journal)

  abbrev opened_on :
      Context → DisputeEvent → Money → Store → Status → List (Status × Status) → Store
  opened_on c ev amount st s moves = record st {
    status = s;
    moves = moves;
    cases = with_case (opened_case a lower provider c ev amount) (st.cases);
    items = map (freeze (hold lower c ev)) (st.items);
    outbox = st.outbox ++ (st.order_public ∷ []);
  }

  pub opens :
      (c : Context) (ev : DisputeEvent) (amount : Money) (st : Store)
      → is_positive amount ≡ true
      → can_contest (st.status) ≡ true
      → (st' : Store) × (open_dispute a lower provider c ev amount st ≡ ok st')
        × Opened c ev amount st st'
  unfolding open_dispute move
  opens c ev amount st positive contestable =
      let new = opened_case a lower provider c ev amount in
      let inserted = insert-ok new (st.cases) positive in
      elim (Bool-cases (same_status (st.status) disputed)) [
        | inl already ↦ (
          opened_on c ev amount st (st.status) (st.moves),
          rw (inserted, already) refl,
          (same_status_sound (st.status) already, refl, refl, refl),
        )
        | inr before ↦ (
          opened_on c ev amount st disputed (st.moves ++ ((st.status, disputed) ∷ [])),
          rw (inserted, before, contest-ok (st.status) contestable before) refl,
          (refl, refl, refl, refl),
        )
      ]

  pub refuses :
      (c : Context) (ev : DisputeEvent) (amount : Money) (st : Store)
      → (is_positive amount ≡ false) ⊎ (can_contest (st.status) ≡ false)
      → (e : DisputeError) × (open_dispute a lower provider c ev amount st ≡ err e)
  unfolding open_dispute move
  refuses c ev amount st (inl low) = (
    amount_refused,
    rw (insert-err (opened_case a lower provider c ev amount) (st.cases) low) refl,
  )
  refuses c ev amount st (inr final) =
      let new = opened_case a lower provider c ev amount in
      let (apart, refused) = contest-err (st.status) final in
      elim (Bool-cases (is_positive amount)) [
        | inr low ↦ (amount_refused, rw (insert-err new (st.cases) low) refl)
        | inl positive ↦ (
          of_order (illegal_transition (st.status) disputed),
          rw (insert-ok new (st.cases) positive, apart, refused) refl,
        )
      ]

  -- An event that names the store's payment, and a dispute.
  abbrev pub Reaches : DisputeEvent → Store → Type 0
  Reaches ev st =
      (str_eq (ev.dispute) "" || str_eq (ev.payment) "" || not (str_eq (st.payment) (ev.payment)))
      ≡ false

  -- The transaction, for an event of a kind.
  abbrev pub handled : Context → DisputeEvent → Store → DisputeKind → Result DisputeError Store
  handled c ev st k =
      by_kind a lower provider c ev (amount_of (st.currency) (ev.amount)) st k >>= λ after.
      ok (record after { audit = after.audit ++ (k ∷ []) })

  pub dispatch :
      (c : Context) (ev : DisputeEvent) (st : Store) (k : DisputeKind)
      → ev.kind ≡ k
      → Reaches ev st
      → on_dispute a lower provider c ev st ≡ handled c ev st k
  unfolding on_dispute
  dispatch c ev st k kind reaches = rw reaches (ap (handled c ev st) kind)

  -- The opening of a dispute on the store's payment is recorded exactly when its amount is positive and the
  -- order is paid, fulfilled, completed, partially refunded or disputed. The order is disputed
  -- then, the dispute has a case, and every transfer that could be released is held until thirty
  -- days behind the deadline or later.
  pub on_dispute-opened :
      (c : Context) (ev : DisputeEvent) (st : Store)
      → ev.kind ≡ opened
      → Reaches ev st
      → Ends
          (λ _.
            (is_positive (amount_of (st.currency) (ev.amount)) ≡ false)
            ⊎ (can_contest (st.status) ≡ false))
          (λ st'.
            (is_positive (amount_of (st.currency) (ev.amount)) ≡ true)
            × (can_contest (st.status) ≡ true)
            × (st'.status ≡ disputed)
            × (has_case (ev.dispute) (st'.cases) ≡ true)
            × All (λ i. HeldUntil (hold lower c ev) (i.transfer)) (st'.items))
          (on_dispute a lower provider c ev st)
  on_dispute-opened c ev st kind reaches =
      let amount = amount_of (st.currency) (ev.amount) in
      let new = opened_case a lower provider c ev amount in
      elim (both amount (st.status)) [
        | inr (positive, contestable) ↦
            let (st', done, (s, cases, items, _)) = opens c ev amount st positive contestable in
            rw (dispatch c ev st opened kind reaches, done)
              (returns _ (
                positive,
                contestable,
                s,
                ap (has_case (ev.dispute)) cases ∙ has_case-with_case new (st.cases),
                rw items (map_freeze-HeldUntil (hold lower c ev) (st.items)),
              ))
        | inl why ↦
            let (e, refused) = refuses c ev amount st why in
            rw (dispatch c ev st opened kind reaches, refused) (fails e why)
      ]
    where
      both :
          (m : Money) (s : Status)
          → ((is_positive m ≡ false) ⊎ (can_contest s ≡ false))
            ⊎ ((is_positive m ≡ true) × (can_contest s ≡ true))
      both m s = elim (Bool-cases (is_positive m)) [
        | inr low ↦ inl (inl low)
        | inl positive ↦ elim (Bool-cases (can_contest s)) [
          | inr final ↦ inl (inr final)
          | inl contestable ↦ inr (positive, contestable)
        ]
      ]
