-- ===== src/Ledger/Types.antt =====
-- The types of internal/modules/ledger/ledger.go. A UUID is its 128-bit number, and an instant is a
-- number of nanoseconds; the zero `time.Time` is `none`. `Metadata` is left out: nothing reads it.
use Prim.Native.String.{String}
use market_place.Prelude.{ℕ, ℤ, Bool, Option, List}
use market_place.Money.Types.{Money, Currency}

-- `type Direction string`
pub data Direction : Type 0 where
  debit credit : Direction
  other : String → Direction

pub record Line : Type 0 where
  pub account_id : ℕ
  pub direction : Direction
  pub amount : Money
  pub memo : String

pub record Entry : Type 0 where
  pub kind : String
  pub currency : Currency
  pub occurred_at : Option ℤ
  pub description : String
  pub reference_type : String
  pub reference_id : String
  pub idempotency_key : String
  pub reverses_entry_id : Option ℕ
  pub lines : List Line

-- The errors of `Validate` and `Post`; a line's number starts at 1.
pub data LedgerError : Type 0 where
  kind_required description_required reference_required no_idempotency empty_entry : LedgerError
  currency_mixed not_positive no_account invalid_direction : ℕ → LedgerError
  unbalanced : LedgerError
  lookup_failed insert_entry_failed begin_failed commit_failed : LedgerError
  insert_line_failed : ℕ → LedgerError

pub record Posted : Type 0 where
  pub entry_id : ℕ
  pub public_id : String
  pub replayed : Bool

-- A row of `journal_entries`.
pub record EntryRow : Type 0 where
  pub id : ℕ
  pub public_id : String
  pub kind : String
  pub currency : Currency
  pub occurred_at : ℤ
  pub description : String
  pub reference_type : String
  pub reference_id : String
  pub reverses_entry_id : Option ℕ
  pub idempotency_key : String

-- A row of `journal_lines`. `memo` is NULL where the line's is empty.
pub record LineRow : Type 0 where
  pub entry_id : ℕ
  pub line_no : ℕ
  pub account_id : ℕ
  pub direction : Direction
  pub amount_minor : ℤ
  pub currency : Currency
  pub memo : Option String

-- The two tables, the newest row first.
pub record Journal : Type 0 where
  pub entries : List EntryRow
  pub lines : List LineRow
