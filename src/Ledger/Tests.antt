-- ===== src/Ledger/Tests.antt =====
-- Runs of internal/modules/ledger/ledger.go on given entries.
use market_place.Prelude.{
  ℕ, ◌≡◌, ◌≤◌, refl, pos, true, false, none, [], ◌∷◌, length, All, ok, arith, wrap64, add64, ◌+ℤ◌,
}
use market_place.Money.Types.{Money}
use market_place.Ledger.Types.{debit, credit, Entry, Journal, Posted}
use market_place.Ledger.Post.{
  Faults, entry_row, tally, check_line, check_lines, validate, find_key, insert_lines, insert_entry,
  replay_or_insert, post, settle, run_once,
}
use market_place.Ledger.Sound.{debits, credits, IsPosting, validate_sound, validate_complete}
use market_place.Ledger.Balance.{IsBalanced, Request, history, difference, history-IsBalanced}
use market_place.Ledger.Replay.{post_replays}

abbrev rupees : ℕ → Money
rupees a = record { minor = pos a; cur = "INR" }

abbrev sale : Entry
sale = record {
  kind = "order_capture";
  currency = "INR";
  occurred_at = none;
  description = "Capture";
  reference_type = "order";
  reference_id = "ord_1";
  idempotency_key = "capture:ord_1";
  reverses_entry_id = none;
  lines =
      record { account_id = 7; direction = debit; amount = rupees 118; memo = "" }
      ∷ record { account_id = 8; direction = credit; amount = rupees 100; memo = "net" }
      ∷ record { account_id = 9; direction = credit; amount = rupees 18; memo = "fee" }
      ∷ [];
}

abbrev empty_journal : Journal
empty_journal = record { entries = []; lines = [] }

abbrev sound : Faults
sound = record { at_lookup = false; at_entry = false; at_line = λ _. false }

sale_valid : validate sale ≡ ok tt
unfolding validate check_lines check_line tally add64 wrap64 ◌+ℤ◌
sale_valid = refl

validate_sound_example :
    (2 ≤ length sale.lines)
    × All (IsPosting "INR") sale.lines
    × (debits sale.lines ≡ credits sale.lines)
validate_sound_example = validate_sound sale (omega arith, omega arith) sale_valid

validate_complete_example : validate sale ≡ ok tt
validate_complete_example =
    validate_complete sale (refl, refl, refl, refl, refl) (omega arith)
      (
        (refl, omega arith, omega arith, tt),
        ((refl, omega arith, omega arith, tt), ((refl, omega arith, omega arith, tt), tt)),
      )
      (omega arith) (omega arith)

abbrev request : Request
request = record {
  begin_fails = false;
  commit_fails = false;
  faults = sound;
  id = 1;
  public_id = "je_1";
  now = pos 5;
  entry = sale;
}

no_rows : IsBalanced empty_journal
unfolding difference
no_rows c = refl

history-IsBalanced_example : IsBalanced (history (request ∷ request ∷ []) empty_journal)
history-IsBalanced_example =
    history-IsBalanced (request ∷ request ∷ []) empty_journal
      ((omega arith, omega arith), ((omega arith, omega arith), tt)) no_rows

abbrev first : Posted
first = record { entry_id = 1; public_id = "je_1"; replayed = false }

-- The journal with the entry and its three lines.
abbrev after_sale : Journal
after_sale =
    (insert_lines sound.at_line 1 0 sale.lines
      (record { entries = entry_row 1 "je_1" (pos 5) sale ∷ []; lines = [] })).1

first_posted :
    run_once false false (post sound 1 "je_1" (pos 5) sale) empty_journal ≡ (ok first, after_sale)
unfolding run_once settle post replay_or_insert insert_entry insert_lines find_key validate
    check_lines check_line tally add64 wrap64 ◌+ℤ◌
first_posted = refl

-- Another entry, posted in between.
abbrev sale_between : Request
sale_between = record {
  begin_fails = false;
  commit_fails = false;
  faults = sound;
  id = 3;
  public_id = "je_3";
  now = pos 6;
  entry = record sale { idempotency_key = "capture:ord_2" };
}

post_replays_example : post sound 2 "je_2" (pos 9) sale (history (sale_between ∷ []) after_sale) ≡ (
  ok (record { entry_id = 1; public_id = "je_1"; replayed = true }),
  history (sale_between ∷ []) after_sale,
)
post_replays_example =
    post_replays false false sound sound 1 2 "je_1" "je_2" (pos 5) (pos 9) sale sale
      (sale_between ∷ []) empty_journal first_posted refl sale_valid refl
