-- ===== src/Ledger/Sound.antt =====
-- What `Validate` accepts: entries that balance, as far as their sums are `int64` values.
use market_place.Prelude.{
  ℕ, ◌+◌, ◌≤◌, ◌<◌, ◌≡◌, ◌≢◌, ℤ, pos, pos_part, true, false, ltb, ◌==◌, ◌==ℤ◌, List, [], ◌∷◌,
  length, All, ok, arith, add64, >>=-eq-ok, wrap64, half_word, ◌+ℤ◌, inl, inr, Result-cases, ap,
}
use market_place.Money.Types.{Currency, same_code, is_positive}
use market_place.Ledger.Types.{Direction, debit, credit, other, Line, Entry}
use market_place.Ledger.Post.{is_empty, tally, check_line, check_lines, validate}

-- The amount of a line on one side.
abbrev pub debit_of : Direction → ℕ → ℕ
debit_of debit a = a
debit_of _ a = 0

abbrev pub credit_of : Direction → ℕ → ℕ
credit_of credit a = a
credit_of _ a = 0

-- The exact sums of an entry's debits and credits.
abbrev pub debits : List Line → ℕ
debits [] = 0
debits (l ∷ ls) = debit_of l.direction (pos_part l.amount.minor) + debits ls

abbrev pub credits : List Line → ℕ
credits [] = 0
credits (l ∷ ls) = credit_of l.direction (pos_part l.amount.minor) + credits ls

abbrev IsSide : Direction → Type 0
IsSide (other _) = ⊥
IsSide _ = Unit

-- A line that may be posted in the currency c.
abbrev pub IsPosting : Currency → Line → Type 0
IsPosting c l =
    (same_code l.amount.cur c ≡ true)
    × (0 < pos_part l.amount.minor)
    × (l.account_id ≢ 0)
    × IsSide l.direction

abbrev Sums : Line → ℕ → ℕ → ℤ × ℤ → Type 0
Sums l x y s = s ≡ (
  pos (x + debit_of l.direction (pos_part l.amount.minor)),
  pos (y + credit_of l.direction (pos_part l.amount.minor)),
)

tally_lem :
    (i : ℕ) (d : Direction) (a : ℤ) (x y : ℕ) {s : ℤ × ℤ}
    → 0 < pos_part a
    → x + debit_of d (pos_part a) < half_word
    → y + credit_of d (pos_part a) < half_word
    → tally i d a (pos x, pos y) ≡ ok s
    → IsSide d × (s ≡ (pos (x + debit_of d (pos_part a)), pos (y + credit_of d (pos_part a))))
unfolding tally add64 wrap64 ◌+ℤ◌
tally_lem i debit a x y p hx hy e = ground arith
tally_lem i credit a x y p hx hy e = ground arith
tally_lem i (other _) a x y p hx hy e = cc

check_line_lem :
    (c : Currency) (i : ℕ) (l : Line) (x y : ℕ) {s : ℤ × ℤ}
    → x + debit_of l.direction (pos_part l.amount.minor) < half_word
    → y + credit_of l.direction (pos_part l.amount.minor) < half_word
    → check_line c i l (pos x, pos y) ≡ ok s
    → IsPosting c l × Sums l x y s
unfolding check_line
check_line_lem c i l x y {s} hx hy e =
    ground (arith, tally_lem i l.direction l.amount.minor x y {s = s})

check_lines_lem :
    (c : Currency) (i : ℕ) (ls : List Line) (x y : ℕ) {s : ℤ × ℤ}
    → x + debits ls < half_word
    → y + credits ls < half_word
    → check_lines c i ls (pos x, pos y) ≡ ok s
    → All (IsPosting c) ls × (s ≡ (pos (x + debits ls), pos (y + credits ls)))
unfolding check_lines
check_lines_lem c i [] x y hx hy e = ground arith
check_lines_lem c i (l ∷ ls) x y {s} hx hy e =
    let (next, first, rest) = >>=-eq-ok (check_line c i l (pos x, pos y)) _ e in
    let (posting, sums) = check_line_lem c i l x y (omega arith) (omega arith) first in
    let x' = x + debit_of l.direction (pos_part l.amount.minor) in
    let y' = y + credit_of l.direction (pos_part l.amount.minor) in
    let (others, final) =
      check_lines_lem c (i + 1) ls x' y' (omega arith) (omega arith) (rw sums at rest) in
    let to_x : x + debits (l ∷ ls) ≡ x' + debits ls = omega arith in
    let to_y : y + credits (l ∷ ls) ≡ y' + credits ls = omega arith in
    ((posting, others), rw (to_x, to_y) final)

-- Whether the exact sums of an entry's debits and credits are `int64` values.
abbrev pub Fits : Entry → Type 0
Fits e = (debits e.lines < half_word) × (credits e.lines < half_word)

-- If the two sums of an entry are `int64` values and `Validate` accepts it, then it has two lines or
-- more, every line is in the entry's currency, positive, on an account and on a side, and the
-- debits and the credits have the same exact sum.
pub validate_sound :
    (e : Entry)
    → Fits e
    → validate e ≡ ok tt
    → (2 ≤ length e.lines) × All (IsPosting e.currency) e.lines × (debits e.lines ≡ credits e.lines)
unfolding validate
validate_sound e (hd, hc) h =
    elim (Result-cases (check_lines e.currency 0 e.lines (pos 0, pos 0))) [
      | inl (s, checked) ↦
          let (postings, sums) =
            check_lines_lem e.currency 0 e.lines 0 0 (omega arith) (omega arith) checked in
          ground (arith, ap (λ (t : ℤ × ℤ). t.0) sums, ap (λ (t : ℤ × ℤ). t.1) sums)
      | inr (x, failed) ↦ ground arith
    ]

tally_ok :
    (i : ℕ) (d : Direction) (a : ℤ) (x y : ℕ)
    → IsSide d
    → 0 < pos_part a
    → x + debit_of d (pos_part a) < half_word
    → y + credit_of d (pos_part a) < half_word
    → tally i d a (pos x, pos y)
      ≡ ok (pos (x + debit_of d (pos_part a)), pos (y + credit_of d (pos_part a)))
unfolding tally add64 wrap64 ◌+ℤ◌
tally_ok i debit a x y h p hx hy = ground arith
tally_ok i credit a x y h p hx hy = ground arith
tally_ok i (other _) a x y h p hx hy = absurd h

check_line_ok :
    (c : Currency) (i : ℕ) (l : Line) (x y : ℕ)
    → IsPosting c l
    → x + debit_of l.direction (pos_part l.amount.minor) < half_word
    → y + credit_of l.direction (pos_part l.amount.minor) < half_word
    → check_line c i l (pos x, pos y)
      ≡ ok (
        pos (x + debit_of l.direction (pos_part l.amount.minor)),
        pos (y + credit_of l.direction (pos_part l.amount.minor)),
      )
unfolding check_line
check_line_ok c i l x y (code, p, acct, side) hx hy =
    let positive : is_positive l.amount ≡ true = ground arith in
    let account : (l.account_id == 0) ≡ false = ground arith in
    rw (code, positive, account) (tally_ok i l.direction l.amount.minor x y side p hx hy)

check_lines_ok :
    (c : Currency) (i : ℕ) (ls : List Line) (x y : ℕ)
    → All (IsPosting c) ls
    → x + debits ls < half_word
    → y + credits ls < half_word
    → check_lines c i ls (pos x, pos y) ≡ ok (pos (x + debits ls), pos (y + credits ls))
unfolding check_lines
check_lines_ok c i [] x y h hx hy = ground arith
check_lines_ok c i (l ∷ ls) x y (h, t) hx hy =
    let dx = debit_of l.direction (pos_part l.amount.minor) in
    let dy = credit_of l.direction (pos_part l.amount.minor) in
    let to_x : x + debits (l ∷ ls) ≡ (x + dx) + debits ls = omega arith in
    let to_y : y + credits (l ∷ ls) ≡ (y + dy) + credits ls = omega arith in
    rw (check_line_ok c i l x y h (omega arith) (omega arith), to_x, to_y)
      (check_lines_ok c (i + 1) ls (x + dx) (y + dy) t (omega arith) (omega arith))

-- The fields that `Validate` wants are there.
abbrev pub IsHeaded : Entry → Type 0
IsHeaded e =
    (is_empty e.kind ≡ false)
    × (is_empty e.description ≡ false)
    × (is_empty e.reference_type ≡ false)
    × (is_empty e.reference_id ≡ false)
    × (is_empty e.idempotency_key ≡ false)

-- `Validate` accepts every entry with its fields filled, two lines or more that may be posted, and
-- equal sums that are `int64` values.
pub validate_complete :
    (e : Entry)
    → IsHeaded e
    → 2 ≤ length e.lines
    → All (IsPosting e.currency) e.lines
    → debits e.lines ≡ credits e.lines
    → debits e.lines < half_word
    → validate e ≡ ok tt
unfolding validate
validate_complete e (a, b, c, d, f) two postings balanced fits =
    let many : ltb (length e.lines) 2 ≡ false = ground arith in
    let equal : (pos (0 + debits e.lines) ==ℤ pos (0 + credits e.lines)) ≡ true = ground arith in
    rw (
      a,
      b,
      c,
      d,
      f,
      many,
      check_lines_ok e.currency 0 e.lines 0 0 postings (omega arith) (omega arith),
      equal,
    )
