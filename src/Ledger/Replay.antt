-- ===== src/Ledger/Replay.antt =====
-- Posting is idempotent: one row to a key, and a repeat reports the first.
use Prim.Native.String.{String}
use text.Mathlib.Text.{◌==◌ as str_eq}
use text.Mathlib.TextEquality.{eq_iff}
use text.Mathlib.TextPositions.{eq_refl}
use market_place.Prelude.{
  ℕ, ◌+◌, ◌≡◌, refl, ℤ, Bool, true, false, none, some, Option-cases, List, [], ◌∷◌, Result, ok, err,
  arith, Bool-cases, inl, inr, Result-cases,
}
use market_place.Ledger.Types.{Line, Entry, LedgerError, Posted, EntryRow, Journal}
use market_place.Ledger.Post.{
  Faults, Action, validate, find_key, line_row, entry_row, insert_lines, insert_entry, post, posted,
  settle, run_once,
}
use market_place.Ledger.Balance.{Request, serve, history}

-- Inserting lines leaves the table of entries alone.
insert_lines-entries :
    (fault : ℕ → Bool) (id i : ℕ) (ls : List Line) (j : Journal)
    → (insert_lines fault id i ls j).1.entries ≡ j.entries
unfolding insert_lines
insert_lines-entries fault id i [] j = refl
insert_lines-entries fault id i (l ∷ ls) j = ground (
  arith,
  insert_lines-entries fault id (i + 1) ls (record j { lines = line_row id (i + 1) l ∷ j.lines }),
)

-- After a success the key is found, with the identifiers that were reported.
abbrev Records : String → Result LedgerError Posted × Journal → Type 0
Records key (ok a, j) =
    (r : EntryRow) × (find_key key j.entries ≡ some r)
    × (r.id ≡ a.entry_id)
    × (r.public_id ≡ a.public_id)
Records key (err e, j) = Unit

posted-Records :
    (id : ℕ) (public_id : String) (now : ℤ) (e : Entry) (rows : List EntryRow)
    (r : Result LedgerError (Unit {0}) × Journal)
    → r.1.entries ≡ entry_row id public_id now e ∷ rows
    → Records e.idempotency_key (posted id public_id r)
unfolding find_key
posted-Records id public_id now e rows (ok _, j) h =
    (entry_row id public_id now e, rw (h, eq_refl e.idempotency_key), refl, refl)
posted-Records id public_id now e rows (err x, j) h = tt

insert_entry-Records :
    (f : Faults) (id : ℕ) (public_id : String) (now : ℤ) (e : Entry) (j : Journal)
    → Records e.idempotency_key (insert_entry f id public_id now e j)
unfolding insert_entry
insert_entry-Records f id public_id now e j = elim (Bool-cases f.at_entry) [
  | inl failed ↦ rw failed tt
  | inr fine ↦ rw fine (
      posted-Records id public_id now e j.entries _ (
        insert_lines-entries f.at_line id 0 e.lines
          (record j { entries = entry_row id public_id now e ∷ j.entries })))
]

post-Records :
    (f : Faults) (id : ℕ) (public_id : String) (now : ℤ) (e : Entry) (j : Journal)
    → Records e.idempotency_key (post f id public_id now e j)
unfolding post
post-Records f id public_id now e j = elim (Result-cases (validate e)) [
  | inr (x, refused) ↦ rw (refused, post) tt
  | inl (_, valid) ↦ elim (Bool-cases f.at_lookup) [
    | inl failed ↦ rw (valid, post, failed) tt
    | inr fine ↦ elim (Option-cases (find_key e.idempotency_key j.entries)) [
      | inl absent ↦ rw (valid, post, fine, absent) (insert_entry-Records f id public_id now e j)
      | inr (r, present) ↦ rw (valid, post, fine, present) (r, present, refl, refl)
    ]
  ]
]

settle-ok :
    (commit_fails : Bool) (j : Journal) (r : Result LedgerError Posted × Journal) {a : Posted}
    {j' : Journal}
    → settle commit_fails j r ≡ (ok a, j')
    → r ≡ (ok a, j')
unfolding settle
settle-ok true j (ok _, _) e = absurd (ground arith)
settle-ok false j (ok _, _) e = e
settle-ok _ j (err _, _) e = absurd (ground arith)

-- A unit of work that succeeds ends in the state that its call left.
run_once-ok :
    (begin_fails commit_fails : Bool) (call : Action Posted) (j : Journal) {a : Posted}
    {j' : Journal}
    → run_once begin_fails commit_fails call j ≡ (ok a, j')
    → call j ≡ (ok a, j')
unfolding run_once
run_once-ok true c call j e = absurd (ground arith)
run_once-ok false c call j e = settle-ok c j (call j) e

-- A row that a key finds is found whatever is inserted under keys that find nothing.
module _ (key : String) (r : EntryRow) where
  abbrev Finds : Journal → Type 0
  Finds j = find_key key j.entries ≡ some r

  row-Finds :
      (row : EntryRow) (rows : List EntryRow)
      → find_key row.idempotency_key rows ≡ none
      → find_key key rows ≡ some r
      → find_key key (row ∷ rows) ≡ some r
  unfolding find_key
  row-Finds row rows absent found = elim (Bool-cases (str_eq row.idempotency_key key)) [
    | inr other ↦ rw other found
    | inl same ↦
        let key_same : row.idempotency_key ≡ key = (eq_iff row.idempotency_key key).0 same in
        absurd (let missing = rw (key_same) at absent in cc)
  ]

  posted-Finds :
      (id : ℕ) (public_id : String) (q : Result LedgerError (Unit {0}) × Journal)
      → Finds q.1
      → Finds (posted id public_id q).1
  posted-Finds id public_id (ok _, j) found = found
  posted-Finds id public_id (err x, j) found = found

  insert_entry-Finds :
      (f : Faults) (id : ℕ) (public_id : String) (now : ℤ) (e : Entry) (j : Journal)
      → find_key e.idempotency_key j.entries ≡ none
      → Finds j
      → Finds (insert_entry f id public_id now e j).1
  unfolding insert_entry
  insert_entry-Finds f id public_id now e j absent found = elim (Bool-cases f.at_entry) [
    | inl failed ↦ rw failed found
    | inr fine ↦
        let row = entry_row id public_id now e in
        let inserted : Journal = record j { entries = row ∷ j.entries } in
        rw fine (
          posted-Finds id public_id (insert_lines f.at_line id 0 e.lines inserted) (
            rw (insert_lines-entries f.at_line id 0 e.lines inserted)
              (row-Finds row j.entries absent found)))
  ]

  post-Finds :
      (f : Faults) (id : ℕ) (public_id : String) (now : ℤ) (e : Entry) (j : Journal)
      → Finds j
      → Finds (post f id public_id now e j).1
  unfolding post
  post-Finds f id public_id now e j found = elim (Result-cases (validate e)) [
    | inr (x, refused) ↦ rw (refused, post) found
    | inl (_, valid) ↦ elim (Bool-cases f.at_lookup) [
      | inl failed ↦ rw (valid, post, failed) found
      | inr fine ↦ elim (Option-cases (find_key e.idempotency_key j.entries)) [
        | inl absent ↦
            rw (valid, post, fine, absent) (insert_entry-Finds f id public_id now e j absent found)
        | inr (q, present) ↦ rw (valid, post, fine, present) found
      ]
    ]
  ]

  settle-Finds :
      (commit_fails : Bool) (j : Journal) (q : Result LedgerError Posted × Journal)
      → Finds j
      → Finds q.1
      → Finds (settle commit_fails j q).1
  unfolding settle
  settle-Finds true j (ok _, _) before after = before
  settle-Finds false j (ok _, _) before after = after
  settle-Finds _ j (err _, _) before after = before

  serve-Finds : (q : Request) (j : Journal) → Finds j → Finds (serve q j).1
  unfolding serve run_once
  serve-Finds q j found = elim (Bool-cases q.begin_fails) [
    | inl failed ↦ rw failed found
    | inr fine ↦ rw fine (
        settle-Finds q.commit_fails j _ found
          (post-Finds q.faults q.id q.public_id q.now q.entry j found))
  ]

  history-Finds : (qs : List Request) (j : Journal) → Finds j → Finds (history qs j)
  unfolding history
  history-Finds [] j found = found
  history-Finds (q ∷ qs) j found = history-Finds qs (serve q j).1 (serve-Finds q j found)

-- Once a unit of work has posted an entry, and after any history of units of work behind it, posting
-- any valid entry with the same key reports the first entry's identifiers as a replay and leaves
-- the journal alone, if the look-up does not fail.
pub post_replays :
    (begin_fails commit_fails : Bool) (f g : Faults) (id id' : ℕ) (public_id public_id' : String)
    (now now' : ℤ) (e e' : Entry) (qs : List Request) (j : Journal) {a : Posted} {j' : Journal}
    → run_once begin_fails commit_fails (post f id public_id now e) j ≡ (ok a, j')
    → e'.idempotency_key ≡ e.idempotency_key
    → validate e' ≡ ok tt
    → g.at_lookup ≡ false
    → post g id' public_id' now' e' (history qs j') ≡ (
      ok (record { entry_id = a.entry_id; public_id = a.public_id; replayed = true }),
      history qs j',
    )
unfolding post
post_replays b c f g id id' public_id public_id' now now' e e' qs j {j'} done key valid fine =
    let call = post f id public_id now e in
    let (r, found, same_id, same_public) =
      rw (run_once-ok b c call j done) at (post-Records f id public_id now e j) in
    let later = history-Finds e.idempotency_key r qs j' found in
    rw (valid, post, fine, key, later, same_id, same_public)
