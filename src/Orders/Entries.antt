-- ===== src/Orders/Entries.antt =====
-- What the ledger entries of orders share: the errors in making one, accounts, sums and texts.
use Prim.Native.String.{String, ◌++◌ as ◌⧺◌, ◌∷◌ as ◌⸬◌}
use Prim.Native.Char.{Char}
use Prim.Native.String.append.{cons}
use Prim.Native.String.compare.{cons-nil}
use mathlib.Core.List.{◌++◌}
use market_place.Prelude.{
  ℕ, ◌+◌, ◌<◌, ◌≡◌, ◌≢◌, refl, false, some, Option-cases, List, [], ◌∷◌, length, arith, inl, inr,
  Ends, returns, fails,
}
use market_place.Money.Types.{Currency, is_valid, overflow, unknown_currency}
use market_place.Ledger.Types.{Line}
use market_place.Ledger.Post.{is_empty}
use market_place.Ledger.Sound.{debits, credits}
use market_place.Orders.Types.{
  OrderError, account_missing, of_money, Accounts, account_by_code, seller_account,
}

-- The errors of an entry in the making: an account is not there, a number is no `int64`, or the
-- currency is not known, as far as `Unknown` allows that.
abbrev pub IsExpected : (Unknown : Type 0) → OrderError → Type 0
IsExpected Unknown (account_missing _) = Unit
IsExpected Unknown (of_money overflow) = Unit
IsExpected Unknown (of_money unknown_currency) = Unknown
IsExpected Unknown _ = ⊥

-- The currency is none of the table's.
abbrev pub IsUnknown : Currency → Type 0
IsUnknown c = is_valid c ≡ false

-- No account has the zero UUID.
abbrev pub HasIds : Accounts → Type 0
HasIds a =
    ((code : String) (id : ℕ) → a.by_code code ≡ some id → id ≢ 0)
    × ((s : ℕ) (p : String) (c : Currency) (id : ℕ) → a.of_seller s p c ≡ some id → id ≢ 0)

pub account_by_code-Ends :
    (Unknown : Type 0) (a : Accounts) (code : String)
    → HasIds a
    → Ends (IsExpected Unknown) (λ id. id ≢ 0) (account_by_code a code)
unfolding account_by_code
account_by_code-Ends Unknown a code (h, _) = elim (Option-cases (a.by_code code)) [
  | inl missing ↦ rw missing (fails _ tt)
  | inr (id, e) ↦ rw e (returns id (h code id e))
]

pub seller_account-Ends :
    (Unknown : Type 0) (a : Accounts) (s : ℕ) (p : String) (c : Currency)
    → HasIds a
    → Ends (IsExpected Unknown) (λ id. id ≢ 0) (seller_account a s p c)
unfolding seller_account
seller_account-Ends Unknown a s p c (_, h) = elim (Option-cases (a.of_seller s p c)) [
  | inl missing ↦ rw missing (fails _ tt)
  | inr (id, e) ↦ rw e (returns id (h s p c id e))
]

pub debits-append : (xs ys : List Line) → debits (xs ++ ys) ≡ debits xs + debits ys
debits-append [] ys = omega arith
debits-append (x ∷ xs) ys = omega (arith, debits-append xs ys)

pub credits-append : (xs ys : List Line) → credits (xs ++ ys) ≡ credits xs + credits ys
credits-append [] ys = omega arith
credits-append (x ∷ xs) ys = omega (arith, credits-append xs ys)

pub debits-IsPosting : (c : Currency) (ls : List Line) → 0 < debits ls → 0 < length ls
debits-IsPosting c [] h = h
debits-IsPosting c (l ∷ ls) h = omega arith

-- A text that begins with a character is not empty.
pub filled : (c : Char) (s t : String) → is_empty ((c ⸬ s) ⧺ t) ≡ false
filled c s t = rw (cons c s t, cons-nil c (s ⧺ t)) refl
