-- ===== src/Ledger/Balance.antt =====
-- The journal stays balanced in every currency under any sequence of transactions that post.
use Prim.Native.String.{String}
use text.Mathlib.TextEquality.{eq_iff}
use market_place.Prelude.{
  ℕ, ◌+◌, ◌<◌, ◌≡◌, refl, ◌∙◌, ℤ, pos, pos_part, Bool, true, false, if◌then◌else◌, Option, none,
  some, List, [], ◌∷◌, All, Result, ok, err, arith, ◌+ℤ◌, ◌-ℤ◌, int_laws, Bool-cases, inl, inr,
  Result-cases,
}
use market_place.Money.Types.{Currency, same_code}
use market_place.Ledger.Types.{
  Direction, debit, credit, other, Line, Entry, LedgerError, Posted, EntryRow, LineRow, Journal,
}
use market_place.Ledger.Post.{
  Faults, Action, validate, find_key, line_row, entry_row, insert_lines, insert_entry,
  replay_or_insert, post, posted, settle, run_once,
}
use market_place.Ledger.Sound.{
  debits, credits, debit_of, credit_of, IsPosting, Fits, validate_sound,
}

-- What a row adds to the difference of debits and credits in the currency c.
abbrev pub signed_amount : Direction → ℤ → ℤ
signed_amount debit a = a
signed_amount credit a = pos 0 -ℤ a
signed_amount (other _) a = pos 0

-- `difference` of the view `ledger_trial_balance`.
unfoldable pub difference : Currency → List LineRow → ℤ
difference c [] = pos 0
difference c (r ∷ rs) =
    (if same_code r.currency c then signed_amount r.direction r.amount_minor else pos 0)
    +ℤ difference c rs

-- The trial balance of every currency is 0.
abbrev pub IsBalanced : Journal → Type 0
IsBalanced j = (c : Currency) → difference c j.lines ≡ pos 0

-- The exact difference of an entry's debits and credits.
abbrev imbalance : List Line → ℤ
imbalance ls = pos (debits ls) -ℤ pos (credits ls)

line_signed :
    (d : Direction) (a : ℤ)
    → 0 < pos_part a
    → signed_amount d a ≡ pos (debit_of d (pos_part a)) -ℤ pos (credit_of d (pos_part a))
unfolding ◌-ℤ◌
line_signed debit a h = ground arith
line_signed credit a h = ground arith
line_signed (other _) a h = ground arith

-- The row of a line that may be posted counts in the entry's currency, and in no other.
difference_row :
    (id n : ℕ) (l : Line) (c cur : Currency) (rs : List LineRow)
    → IsPosting cur l
    → difference c (line_row id n l ∷ rs)
      ≡ (if same_code cur c then imbalance (l ∷ []) else pos 0) +ℤ difference c rs
unfolding difference
difference_row id n l c cur rs (code, positive, account, side) =
    let own : l.amount.cur ≡ cur = (eq_iff l.amount.cur cur).0 code in
    let a = pos_part l.amount.minor in
    let dx = debit_of l.direction a in
    let dy = credit_of l.direction a in
    let alone : pos (dx + 0) -ℤ pos (dy + 0) ≡ pos dx -ℤ pos dy = omega int_laws in
    rw (own, line_signed l.direction l.amount.minor positive, alone)

-- Inserting all the lines of an entry adds its imbalance in its own currency and nothing elsewhere.
difference-insert_lines :
    (fault : ℕ → Bool) (id i : ℕ) (ls : List Line) (c cur : Currency) (j : Journal)
    → All (IsPosting cur) ls
    → (insert_lines fault id i ls j).0 ≡ ok tt
    → difference c (insert_lines fault id i ls j).1.lines
      ≡ (if same_code cur c then imbalance ls else pos 0) +ℤ difference c j.lines
unfolding insert_lines
difference-insert_lines fault id i [] c cur j h e = elim (Bool-cases (same_code cur c)) [
  | inl own ↦ rw own (omega int_laws)
  | inr foreign ↦ rw foreign (omega int_laws)
]
difference-insert_lines fault id i (l ∷ ls) c cur j (h, t) e = elim (Bool-cases (fault (i + 1))) [
  | inl failed ↦ cc (rw failed at e)
  | inr fine ↦
      let row = line_row id (i + 1) l in
      let j' : Journal = record j { lines = row ∷ j.lines } in
      let rest = difference-insert_lines fault id (i + 1) ls c cur j' t (rw fine at e) in
      rw (fine, rest, difference_row id (i + 1) l c cur j.lines h)
        (elim (Bool-cases (same_code cur c)) [
          | inl own ↦ rw own (omega int_laws)
          | inr foreign ↦ rw foreign (omega int_laws)
        ])
]

-- A call, run as a transaction or alone, whose success keeps every difference.
abbrev Keeps : Journal → Result LedgerError Posted × Journal → Type 0
Keeps j (ok _, j') = (c : Currency) → difference c j'.lines ≡ difference c j.lines
Keeps j (err _, j') = Unit

posted-Keeps :
    (id : ℕ) (public_id : String) (j : Journal) (r : Result LedgerError (Unit {0}) × Journal)
    → (r.0 ≡ ok tt → (c : Currency) → difference c r.1.lines ≡ difference c j.lines)
    → Keeps j (posted id public_id r)
posted-Keeps id public_id j (ok _, j') h = h refl
posted-Keeps id public_id j (err _, j') h = tt

insert_entry-Keeps :
    (f : Faults) (id : ℕ) (public_id : String) (now : ℤ) (e : Entry) (j : Journal)
    → All (IsPosting e.currency) e.lines
    → debits e.lines ≡ credits e.lines
    → Keeps j (insert_entry f id public_id now e j)
unfolding insert_entry
insert_entry-Keeps f id public_id now e j h balanced = elim (Bool-cases f.at_entry) [
  | inl failed ↦ rw failed tt
  | inr fine ↦ rw fine (
      posted-Keeps id public_id j _ λ done c.
        let j' : Journal = record j { entries = entry_row id public_id now e ∷ j.entries } in
        rw (difference-insert_lines f.at_line id 0 e.lines c e.currency j' h done, balanced)
          (elim (Bool-cases (same_code e.currency c)) [
            | inl own ↦ rw own (omega int_laws)
            | inr foreign ↦ rw foreign (omega int_laws)
          ]))
]

replay_or_insert-Keeps :
    (f : Faults) (id : ℕ) (public_id : String) (now : ℤ) (e : Entry) (old : Option EntryRow)
    (j : Journal)
    → All (IsPosting e.currency) e.lines
    → debits e.lines ≡ credits e.lines
    → Keeps j (replay_or_insert f id public_id now e old j)
unfolding replay_or_insert
replay_or_insert-Keeps f id public_id now e (some r) j h balanced = λ c. refl
replay_or_insert-Keeps f id public_id now e none j h balanced =
    insert_entry-Keeps f id public_id now e j h balanced

post-Keeps :
    (f : Faults) (id : ℕ) (public_id : String) (now : ℤ) (e : Entry) (j : Journal)
    → Fits e
    → Keeps j (post f id public_id now e j)
unfolding post
post-Keeps f id public_id now e j fits = elim (Result-cases (validate e)) [
  | inr (x, refused) ↦ rw (refused, post) tt
  | inl (_, valid) ↦
      let (two, postings, balanced) = validate_sound e fits valid in
      rw (valid, post)
        (elim (Bool-cases f.at_lookup) [
          | inl failed ↦ rw failed tt
          | inr fine ↦ rw fine (
              replay_or_insert-Keeps f id public_id now e (find_key e.idempotency_key j.entries) j
                postings balanced)
        ])
]

-- One unit of work that posts an entry: what the database does to it, the identifiers and the time
-- that it draws, and the entry.
pub record Request : Type 0 where
  pub begin_fails : Bool
  pub commit_fails : Bool
  pub faults : Faults
  pub id : ℕ
  pub public_id : String
  pub now : ℤ
  pub entry : Entry

unfoldable pub serve : Request → Action Posted
unfolding run_once
serve r = run_once r.begin_fails r.commit_fails (post r.faults r.id r.public_id r.now r.entry)

-- The journal after a history of requests.
unfoldable pub history : List Request → Journal → Journal
unfolding serve
history [] j = j
history (r ∷ rs) j = history rs (serve r j).1

settle-IsBalanced :
    (commit_fails : Bool) (j : Journal) (r : Result LedgerError Posted × Journal)
    → IsBalanced j
    → Keeps j r
    → IsBalanced (settle commit_fails j r).1
unfolding settle
settle-IsBalanced true j (ok a, j') h k = h
settle-IsBalanced false j (ok a, j') h k = λ c. k c ∙ h c
settle-IsBalanced _ j (err e, j') h k = h

serve-IsBalanced :
    (r : Request) (j : Journal) → Fits r.entry → IsBalanced j → IsBalanced (serve r j).1
unfolding serve
serve-IsBalanced r j fits h = elim (Bool-cases r.begin_fails) [
  | inl failed ↦ rw failed h
  | inr fine ↦ rw fine (
      settle-IsBalanced r.commit_fails j _ h
        (post-Keeps r.faults r.id r.public_id r.now r.entry j fits))
]

-- From a journal whose trial balance is 0 in every currency, any history of requests keeps it so,
-- whatever statements, begins or commits fail on the way, if the exact sums of the entries' debits
-- and credits are `int64` values. The entries need not be valid.
pub history-IsBalanced :
    (rs : List Request) (j : Journal)
    → All (λ r. Fits r.entry) rs
    → IsBalanced j
    → IsBalanced (history rs j)
unfolding history
history-IsBalanced [] j fits h = h
history-IsBalanced (r ∷ rs) j (fit, fits) h =
    history-IsBalanced rs (serve r j).1 fits (serve-IsBalanced r j fit h)
