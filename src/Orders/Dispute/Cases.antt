-- ===== src/Orders/Dispute/Cases.antt =====
-- `onDispute` of internal/modules/orders/webhook.go: the statuses that a dispute can start from, the holds
-- and the cases.
use Prim.Native.String.{String}
use text.Mathlib.Text.{◌==◌ as str_eq}
use text.Mathlib.TextPositions.{eq_refl}
use market_place.Prelude.{
  ◌≡◌, ◌⊎◌, inl, inr, refl, Bool, true, false, if◌then◌else◌, Bool-cases, Option, none, some, List,
  [], ◌∷◌, ◌++◌, map, All, pos, ◌*◌, ◌+ℤ◌, ◌≤ℤ◌, ok, err, arith,
}
use market_place.Money.Types.{is_positive}
use market_place.Orders.Types.{
  Status, draft, awaiting_payment, payment_failed, paid, fulfilled, completed, cancelled, expired,
  refund_pending, partially_refunded, refunded, disputed, chargeback_lost, illegal_transition,
}
use market_place.Orders.Machine.{transition, allowed, same_status}
use market_place.Orders.Dispute.Types.{
  CaseStatus, Time, Transfer, Item, Case, DisputeEvent, amount_refused, hour, representment_window,
  network_from_raw,
}
use market_place.Orders.Dispute.Handler.{
  is_held, greatest, freeze_transfer, freeze, has_case, insert_case, Context, resolve_case,
}

-- The statuses at which a dispute can be recorded.
abbrev pub can_contest : Status → Bool
can_contest paid = true
can_contest fulfilled = true
can_contest completed = true
can_contest partially_refunded = true
can_contest disputed = true
can_contest _ = false

-- A transfer that could be released is held until a time.
abbrev pub HeldUntil : Time → Option Transfer → Type 0
HeldUntil until none = Unit
HeldUntil until (some t) =
    (is_held (t.status) ≡ false) ⊎ ((h : Time) × (t.hold_until ≡ some h) × (until ≤ℤ h))

greatest-le : (t : Option Time) (until : Time) → until ≤ℤ greatest t until
greatest-le none until = omega arith
greatest-le (some s) until = ground arith

freeze-HeldUntil : (until : Time) (t : Option Transfer) → HeldUntil until (freeze_transfer until t)
freeze-HeldUntil until none = tt
freeze-HeldUntil until (some t) = elim (Bool-cases (is_held (t.status))) [
  | inl held ↦ rw held (inr (greatest (t.hold_until) until, refl, greatest-le (t.hold_until) until))
  | inr free ↦ rw free (inl free)
]

pub map_freeze-HeldUntil :
    (until : Time) (is : List Item)
    → All (λ i. HeldUntil until (i.transfer)) (map (freeze until) is)
map_freeze-HeldUntil until [] = tt
map_freeze-HeldUntil until (i ∷ is) =
    (freeze-HeldUntil until (i.transfer), map_freeze-HeldUntil until is)

pub contest-ok :
    (s : Status)
    → can_contest s ≡ true
    → same_status s disputed ≡ false
    → transition s s disputed ≡ ok disputed
unfolding transition allowed
contest-ok paid h n = refl
contest-ok fulfilled h n = refl
contest-ok completed h n = refl
contest-ok partially_refunded h n = refl
contest-ok disputed h n = cc
contest-ok draft h n = cc
contest-ok awaiting_payment h n = cc
contest-ok payment_failed h n = cc
contest-ok cancelled h n = cc
contest-ok expired h n = cc
contest-ok refund_pending h n = cc
contest-ok refunded h n = cc
contest-ok chargeback_lost h n = cc

pub contest-err :
    (s : Status)
    → can_contest s ≡ false
    → (same_status s disputed ≡ false)
      × (transition s s disputed ≡ err (illegal_transition s disputed))
unfolding transition allowed
contest-err paid h = cc
contest-err fulfilled h = cc
contest-err completed h = cc
contest-err partially_refunded h = cc
contest-err disputed h = cc
contest-err draft h = (refl, refl)
contest-err awaiting_payment h = (refl, refl)
contest-err payment_failed h = (refl, refl)
contest-err cancelled h = (refl, refl)
contest-err expired h = (refl, refl)
contest-err refund_pending h = (refl, refl)
contest-err refunded h = (refl, refl)
contest-err chargeback_lost h = (refl, refl)

has_case-add :
    (d : String) (c : Case) (cs : List Case)
    → str_eq (c.dispute) d ≡ true
    → has_case d (cs ++ (c ∷ [])) ≡ true
unfolding has_case
has_case-add d c [] e = rw e refl
has_case-add d c (x ∷ cs) e = rw (has_case-add d c cs e) (ground arith)

-- The cases behind an insert.
abbrev pub with_case : Case → List Case → List Case
with_case c cs = if has_case (c.dispute) cs then cs else cs ++ (c ∷ [])

pub has_case-with_case : (c : Case) (cs : List Case) → has_case (c.dispute) (with_case c cs) ≡ true
has_case-with_case c cs = elim (Bool-cases (has_case (c.dispute) cs)) [
  | inl there ↦ rw (there, there) refl
  | inr missing ↦ rw missing (has_case-add (c.dispute) c cs (eq_refl (c.dispute)))
]

pub insert-ok :
    (c : Case) (cs : List Case)
    → is_positive (c.amount) ≡ true
    → insert_case c cs ≡ ok (with_case c cs)
unfolding insert_case
insert-ok c cs e = rw e refl

pub insert-err :
    (c : Case) (cs : List Case)
    → is_positive (c.amount) ≡ false
    → insert_case c cs ≡ err amount_refused
unfolding insert_case
insert-err c cs e = rw e refl

pub same_status_sound : (s : Status) → same_status s disputed ≡ true → s ≡ disputed
same_status_sound disputed e = refl
same_status_sound draft e = cc
same_status_sound awaiting_payment e = cc
same_status_sound payment_failed e = cc
same_status_sound paid e = cc
same_status_sound fulfilled e = cc
same_status_sound completed e = cc
same_status_sound cancelled e = cc
same_status_sound expired e = cc
same_status_sound refund_pending e = cc
same_status_sound partially_refunded e = cc
same_status_sound refunded e = cc
same_status_sound chargeback_lost e = cc

module _ (lower : String → String) where
  abbrev pub respond_by : Context → DisputeEvent → Time
  respond_by c ev = c.now +ℤ representment_window (network_from_raw lower (ev.raw))

  -- The transfers' new hold: thirty days behind the deadline.
  abbrev pub hold : Context → DisputeEvent → Time
  hold c ev = respond_by c ev +ℤ pos (30 * 24 * hour)

pub has_case-resolve :
    (d dispute : String) (s : CaseStatus) (cs : List Case)
    → has_case d (resolve_case dispute s cs) ≡ has_case d cs
unfolding has_case resolve_case
has_case-resolve d dispute s [] = refl
has_case-resolve d dispute s (x ∷ cs) = ground (arith, has_case-resolve d dispute s cs)
