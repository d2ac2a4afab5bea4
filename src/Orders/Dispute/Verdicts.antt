-- ===== src/Orders/Dispute/Verdicts.antt =====
-- `onDispute` of internal/modules/orders/webhook.go: what a win and a loss leave, in and out of order.
use Prim.Native.String.{String}
use market_place.Prelude.{
  ◌≡◌, subst, wrap, inl, inr, refl, ◌∙◌, sym, ap, true, false, Bool-cases, [], ◌∷◌, ◌++◌, map,
  Result, ok, err, Result-cases, >>=-eq-ok, Ends, returns, fails, arith,
}
use market_place.Money.Types.{Money, is_positive}
use market_place.Orders.Types.{Status, fulfilled, disputed, chargeback_lost, OrderError, Accounts}
use market_place.Ledger.Types.{Journal, Posted, LedgerError}
use market_place.Ledger.Post.{post}
use market_place.Orders.Chargeback.{chargeback_entry}
use market_place.Orders.Machine.{transition, allowed, same_status}
use market_place.Orders.Dispute.Types.{
  DisputeKind, opened, was_won, was_lost, closed, lost, Store, DisputeEvent, DisputeError, of_order,
}
use market_place.Orders.Dispute.Handler.{
  has_case, move, amount_of, Context, opened_case, win_dispute, lose_dispute, post_chargeback_loss,
  on_dispute, resolve_case, posted, charged_item,
}
use market_place.Orders.Dispute.Cases.{can_contest, with_case, has_case-resolve}
use market_place.Orders.Dispute.Opening.{opens, refuses, Reaches, handled, dispatch}

module _ (a : Accounts) (lower : String → String) (provider : String) where
  -- Why an event on a disputed order can fail, by its kind.
  abbrev pub Refusal : Context → DisputeEvent → Store → DisputeKind → Type 0
  Refusal c ev st opened = is_positive (amount_of (st.currency) (ev.amount)) ≡ false
  Refusal c ev st was_won = ⊥
  Refusal c ev st closed = ⊥
  Refusal c ev st was_lost =
      (e : OrderError) × (post_chargeback_loss a lower provider c
          (record st { cases = resolve_case (ev.dispute) lost (st.cases) })
          (amount_of (st.currency) (ev.amount)) (ev.dispute)
        ≡ err e)

  abbrev pub verdict : DisputeKind → Status
  verdict opened = disputed
  verdict closed = disputed
  verdict was_won = fulfilled
  verdict was_lost = chargeback_lost

  -- What a loss leaves of the store: all but the items, the offsets and the journal.
  abbrev SameOrder : Store → Store → Type 0
  SameOrder b st =
      (b.status ≡ st.status)
      × (b.cases ≡ st.cases)
      × (b.currency ≡ st.currency)
      × (b.payment ≡ st.payment)

  booked-SameOrder :
      (c : Context) (st : Store) (amount : Money) (dispute : String) {b : Store}
      → post_chargeback_loss a lower provider c st amount dispute ≡ ok b
      → SameOrder b st
  unfolding post_chargeback_loss
  booked-SameOrder c st amount dispute done =
      let entry =
        chargeback_entry a lower provider (st.order_public) dispute (map charged_item (st.items))
          amount (c.now) in
      let (e, _, kept) = >>=-eq-ok entry _ done in
      by_post (post (c.faults) (c.entry_id) (c.entry_public) (c.now) e (st.journal)) kept
    where
      by_post :
          (r : Result LedgerError Posted × Journal) {b : Store}
          → posted a lower provider st (amount.cur) r ≡ ok b
          → SameOrder b st
      by_post (ok p, j) e = ground arith
      by_post (err x, j) e = cc

  settles :
      (s to : Status) → s ≡ disputed → allowed disputed to ≡ true → transition s disputed to ≡ ok to
  unfolding transition
  settles s to e permitted = rw (e, permitted) (ground arith)

  handled-verdict :
      (c : Context) (ev : DisputeEvent) (st : Store) (k : DisputeKind)
      → st.status ≡ disputed
      → Ends
          (λ _. Refusal c ev st k)
          (λ st'. st'.status ≡ verdict k)
          (handled a lower provider c ev st k)
  unfolding win_dispute lose_dispute move allowed
  handled-verdict c ev st opened s =
      let amount = amount_of (st.currency) (ev.amount) in
      elim (Bool-cases (is_positive amount)) [
        | inl positive ↦
            let (st', done, facts) =
              opens a lower provider c ev amount st positive (ap can_contest s) in
            rw done (returns _ (facts.0))
        | inr low ↦
            let (e, refused) = refuses a lower provider c ev amount st (inl low) in
            rw refused (fails e low)
      ]
  handled-verdict c ev st was_won s = rw (settles (st.status) fulfilled s refl) (returns _ refl)
  handled-verdict c ev st was_lost s =
      let amount = amount_of (st.currency) (ev.amount) in
      let resolved = record st { cases = resolve_case (ev.dispute) lost (st.cases) } in
      elim (Result-cases (post_chargeback_loss a lower provider c resolved amount (ev.dispute))) [
        | inr (e, failed) ↦ rw failed (fails _ (e, refl))
        | inl (b, booked) ↦
            let still : b.status ≡ disputed =
              (booked-SameOrder c resolved amount (ev.dispute) booked).0 ∙ s in
            rw (booked, settles (b.status) chargeback_lost still refl) (returns _ refl)
      ]
  handled-verdict c ev st closed s = returns _ s

  -- On a disputed order every event on its dispute ends as its kind says: an opening and a closing leave it
  -- disputed, a win makes it fulfilled and a loss lost. Only an opening without a positive amount
  -- and a loss that cannot be booked fail.
  pub on_dispute-verdict :
      (c : Context) (ev : DisputeEvent) (st : Store)
      → st.status ≡ disputed
      → Reaches a lower provider ev st
      → Ends
          (λ _. Refusal c ev st (ev.kind))
          (λ st'. st'.status ≡ verdict (ev.kind))
          (on_dispute a lower provider c ev st)
  on_dispute-verdict c ev st s reaches =
      rw (dispatch a lower provider c ev st (ev.kind) refl reaches)
        (handled-verdict c ev st (ev.kind) s)

  -- A loss on an order that is not disputed is booked, and leaves the order's status.
  lose_apart :
      (c : Context) (ev : DisputeEvent) (amount : Money) (st : Store) {b : Store}
      → same_status (st.status) disputed ≡ false
      → lose_dispute a lower provider c ev amount st ≡ ok b
      → SameOrder b (record st { cases = resolve_case (ev.dispute) lost (st.cases) })
  unfolding lose_dispute move transition
  lose_apart c ev amount st {b} apart done =
      let resolved = record st { cases = resolve_case (ev.dispute) lost (st.cases) } in
      let (b', booked, rest) =
        >>=-eq-ok
          (wrap of_order (post_chargeback_loss a lower provider c resolved amount (ev.dispute))) _
          done in
      let facts = booked-SameOrder c resolved amount (ev.dispute) (unwrapped _ booked) in
      let still : same_status (b'.status) disputed ≡ false = rw (facts.0) apart in
      let same : b' ≡ b = ground arith in subst (λ x. SameOrder x resolved) same facts
    where
      unwrapped :
          (r : Result OrderError Store) {x : Store}
          → wrap {E = DisputeError} of_order r ≡ ok x
          → r ≡ ok x
      unwrapped (ok y) e = cc
      unwrapped (err y) e = cc

  -- The opening of a dispute without a case, on a store that agrees with another in what it reads.
  opening_behind :
      (d : Context) (ev : DisputeEvent) (st after : Store)
      → SameOrder after st
      → ev.kind ≡ opened
      → Reaches a lower provider ev st
      → has_case (ev.dispute) (st.cases) ≡ false
      → can_contest (st.status) ≡ true
      → is_positive (amount_of (st.currency) (ev.amount)) ≡ true
      → (st' : Store) × (on_dispute a lower provider d ev after ≡ ok st')
        × (st'.status ≡ disputed)
        × (st'.cases
            ≡ st.cases
              ++ (opened_case a lower provider d ev (amount_of (st.currency) (ev.amount)) ∷ []))
        × (st'.journal ≡ after.journal)
  opening_behind d ev st after (s, cs, cur, pay) kind reaches fresh contestable positive =
      let amount = amount_of (after.currency) (ev.amount) in
      let reaches' : Reaches a lower provider ev after = rw pay reaches in
      let (st', done, (s', cases, _, kept)) =
        opens a lower provider d ev amount after (rw cur positive) (rw s contestable) in
      let new = opened_case a lower provider d ev amount in
      let none_there : has_case (ev.dispute) (after.cases) ≡ false = rw cs fresh in
      let added : with_case new (after.cases) ≡ after.cases ++ (new ∷ []) = rw none_there refl in
      (
        record st' { audit = st'.audit ++ (opened ∷ []) },
        rw (dispatch a lower provider d ev after opened kind reaches', done) refl,
        s',
        cases ∙ added ∙ rw (cs, cur) refl,
        kept,
      )

  -- A loss that comes before its dispute is opened: the opening behind it leaves the order disputed, with an
  -- open case of the dispute, while the loss stays in the journal.
  pub lost_before_opened :
      (c d : Context) (loss ev : DisputeEvent) (st after : Store)
      → loss.kind ≡ was_lost
      → ev.kind ≡ opened
      → Reaches a lower provider loss st
      → Reaches a lower provider ev st
      → has_case (ev.dispute) (st.cases) ≡ false
      → same_status (st.status) disputed ≡ false
      → can_contest (st.status) ≡ true
      → is_positive (amount_of (st.currency) (ev.amount)) ≡ true
      → on_dispute a lower provider c loss st ≡ ok after
      → (st' : Store) × (on_dispute a lower provider d ev after ≡ ok st')
        × (st'.status ≡ disputed)
        × (st'.cases
            ≡ resolve_case (loss.dispute) lost (st.cases)
              ++ (opened_case a lower provider d ev (amount_of (st.currency) (ev.amount)) ∷ []))
        × (st'.journal ≡ after.journal)
  lost_before_opened c d loss ev st after k k' r r' fresh apart contestable positive done =
      let amount = amount_of (st.currency) (loss.amount) in
      let (b, lost_at, booked) =
        >>=-eq-ok (lose_dispute a lower provider c loss amount st) _
          (sym (dispatch a lower provider c loss st was_lost k r) ∙ done) in
      let resolved = record st { cases = resolve_case (loss.dispute) lost (st.cases) } in
      let same : record b { audit = b.audit ++ (was_lost ∷ []) } ≡ after = ground arith in
      opening_behind d ev resolved after
        (subst (λ x. SameOrder x resolved) same (lose_apart c loss amount st apart lost_at)) k' r'
        (has_case-resolve (ev.dispute) (loss.dispute) lost (st.cases) ∙ fresh) contestable positive
