-- ===== src/Ledger/Post.antt =====
-- `Validate` and `Post` of internal/modules/ledger/ledger.go.
use Prim.Native.String.{String}
use text.Mathlib.Text.{◌==◌ as str_eq}
use market_place.Prelude.{
  ℕ, ◌+◌, ℤ, pos, Bool, true, false, not, ◌||◌, if◌then◌else◌, ltb, ◌==◌, ◌==ℤ◌, Option, none, some,
  List, [], ◌∷◌, length, Result, ok, err, ◌>>=◌, ◌>>◌, refuse_if, add64,
}
use market_place.Money.Types.{Currency, same_code, is_positive}
use market_place.Ledger.Types.{
  Direction, debit, credit, other, Line, Entry, LedgerError, kind_required, description_required,
  reference_required, no_idempotency, empty_entry, currency_mixed, not_positive, no_account,
  invalid_direction, unbalanced, lookup_failed, insert_entry_failed, insert_line_failed,
  begin_failed, commit_failed, Posted, EntryRow, LineRow, Journal,
}

abbrev pub is_empty : String → Bool
is_empty s = str_eq s ""

-- The switch at the end of the loop body: the line's amount joins the debits or the credits.
unfoldable pub tally : ℕ → Direction → ℤ → ℤ × ℤ → Result LedgerError (ℤ × ℤ)
tally i debit a (debits, credits) = ok (add64 debits a, credits)
tally i credit a (debits, credits) = ok (debits, add64 credits a)
tally i (other _) a sums = err (invalid_direction (i + 1))

-- The loop body of `Validate`.
unfoldable pub check_line : Currency → ℕ → Line → ℤ × ℤ → Result LedgerError (ℤ × ℤ)
unfolding tally
check_line c i l sums = do
  refuse_if (not (same_code l.amount.cur c)) (currency_mixed (i + 1))
  refuse_if (not (is_positive l.amount)) (not_positive (i + 1))
  refuse_if (l.account_id == 0) (no_account (i + 1))
  tally i l.direction l.amount.minor sums

-- The loop of `Validate`, with its two sums.
unfoldable pub check_lines : Currency → ℕ → List Line → ℤ × ℤ → Result LedgerError (ℤ × ℤ)
check_lines c i [] sums = ok sums
check_lines c i (l ∷ ls) sums = do next ← check_line c i l sums; check_lines c (i + 1) ls next

-- `Entry.Validate`
unfoldable pub validate : Entry → Result LedgerError (Unit {0})
validate e = do
  refuse_if (is_empty e.kind) kind_required
  refuse_if (is_empty e.description) description_required
  refuse_if (is_empty e.reference_type || is_empty e.reference_id) reference_required
  refuse_if (is_empty e.idempotency_key) no_idempotency
  refuse_if (ltb (length e.lines) 2) empty_entry
  (debits, credits) ← check_lines e.currency 0 e.lines (pos 0, pos 0)
  refuse_if (not (debits ==ℤ credits)) unbalanced

-- What the database may do to the statements of one call: fail at the look-up, at the entry, or at
-- the line of a number.
pub record Faults : Type 0 where
  pub at_lookup : Bool
  pub at_entry : Bool
  pub at_line : ℕ → Bool

-- A call inside a transaction: its result, and the tables as the transaction now sees them.
abbrev pub Action : Type 0 → Type 0
Action A = Journal → Result LedgerError A × Journal

-- `SELECT id, public_id FROM journal_entries WHERE idempotency_key = $1`
unfoldable pub find_key : String → List EntryRow → Option EntryRow
find_key key [] = none
find_key key (r ∷ rs) = if str_eq r.idempotency_key key then some r else find_key key rs

-- `nullIfEmpty`
abbrev pub null_if_empty : String → Option String
null_if_empty s = if is_empty s then none else some s

abbrev pub line_row : ℕ → ℕ → Line → LineRow
line_row entry_id line_no l = record {
  entry_id = entry_id;
  line_no = line_no;
  account_id = l.account_id;
  direction = l.direction;
  amount_minor = l.amount.minor;
  currency = l.amount.cur;
  memo = null_if_empty l.memo;
}

-- The loop of `Post` over the lines.
unfoldable pub insert_lines : (ℕ → Bool) → (entry_id i : ℕ) → List Line → Action (Unit {0})
insert_lines fault id i [] j = (ok tt, j)
insert_lines fault id i (l ∷ ls) j =
    let rest =
      insert_lines fault id (i + 1) ls (record j { lines = line_row id (i + 1) l ∷ j.lines }) in
    if fault (i + 1) then (err (insert_line_failed (i + 1)), j) else rest

-- `if occurred.IsZero() { occurred = s.clk.Now() }`
abbrev pub or_now : Option ℤ → ℤ → ℤ
or_now none now = now
or_now (some t) now = t

abbrev pub entry_row : (id : ℕ) (public_id : String) (now : ℤ) → Entry → EntryRow
entry_row id public_id now e = record {
  id = id;
  public_id = public_id;
  kind = e.kind;
  currency = e.currency;
  occurred_at = or_now e.occurred_at now;
  description = e.description;
  reference_type = e.reference_type;
  reference_id = e.reference_id;
  reverses_entry_id = e.reverses_entry_id;
  idempotency_key = e.idempotency_key;
}

-- The result of the loop over the lines, as `Post` returns it.
abbrev pub posted :
    (id : ℕ) (public_id : String)
    → Result LedgerError (Unit {0}) × Journal
    → Result LedgerError Posted × Journal
posted id public_id (ok _, j) =
    (ok (record { entry_id = id; public_id = public_id; replayed = false }), j)
posted id public_id (err e, j) = (err e, j)

-- The two inserts of `Post`, for a key that is not in the table.
unfoldable pub insert_entry :
    Faults → (id : ℕ) (public_id : String) (now : ℤ) → Entry → Action Posted
unfolding insert_lines
insert_entry f id public_id now e j =
    if f.at_entry
    then (err insert_entry_failed, j)
    else posted id public_id (
        insert_lines f.at_line id 0 e.lines
          (record j { entries = entry_row id public_id now e ∷ j.entries }))

-- What `Post` does by the outcome of the look-up.
unfoldable pub replay_or_insert :
    Faults → (id : ℕ) (public_id : String) (now : ℤ) → Entry → Option EntryRow → Action Posted
unfolding insert_entry
replay_or_insert f id public_id now e (some r) j =
    (ok (record { entry_id = r.id; public_id = r.public_id; replayed = true }), j)
replay_or_insert f id public_id now e none j = insert_entry f id public_id now e j

-- `Post`: `id` and `public_id` are what package ids makes, `now` is what the clock reads.
unfoldable pub post : Faults → (id : ℕ) (public_id : String) (now : ℤ) → Entry → Action Posted
unfolding find_key replay_or_insert
post f id public_id now e j = elim (validate e) [
  | err x ↦ (err x, j)
  | ok _ ↦
      if f.at_lookup
      then (err lookup_failed, j)
      else replay_or_insert f id public_id now e (find_key e.idempotency_key j.entries) j
]

-- The end of a transaction that began at `before`: what the call wrote is kept if the call and the
-- commit succeed, and dropped if not.
unfoldable pub settle :
    {A : Type 0}
    → (commit_fails : Bool) → (before : Journal) → Result LedgerError A × Journal
    → Result LedgerError A × Journal
settle commit_fails before (ok a, after) =
    if commit_fails then (err commit_failed, before) else (ok a, after)
settle commit_fails before (err e, _) = (err e, before)

-- `runOnce` of internal/platform/db/db.go around one call.
unfoldable pub run_once : {A : Type 0} → (begin_fails commit_fails : Bool) → Action A → Action A
unfolding settle
run_once begin_fails commit_fails call j =
    if begin_fails then (err begin_failed, j) else settle commit_fails j (call j)
