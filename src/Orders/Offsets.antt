-- ===== src/Orders/Offsets.antt =====
-- What `applyOffsets` takes from a settlement.
use Prim.Native.String.{String}
use market_place.Prelude.{
  subst, ℕ, ◌+◌, ◌≤◌, ◌<◌, ◌≡◌, ◌≢◌, inl, inr, refl, ◌∙◌, ap, ℤ, pos, pos_part, neg_part, false,
  ltb, List, [], ◌∷◌, All, ok, wrap, arith, half_word, IsInt64, ◌+ℤ◌, ◌-ℤ◌, sign_laws, Bool-cases,
  if◌then◌else◌, add64, add64_exact, sub64, sub64_exact, Ends, returns, fails, bind-Ends,
  weaken-Ends,
}
use market_place.Money.Types.{Money, Currency, new, is_valid}
use market_place.Money.Arith.{add, sub}
use market_place.Money.Sums.{IsNatural, same_code_refl}
use market_place.Ledger.Post.{is_empty, validate}
use market_place.Ledger.Sound.{validate_complete}
use market_place.Orders.Types.{of_money}
use market_place.Orders.Amounts.{add-IsNatural, sub-IsNatural}
use market_place.Orders.Entries.{IsExpected, IsUnknown, filled}
use market_place.Orders.Settlement.{
  Offset, skip, stop, take, step_by, step_of, Taken, transfer, take_from, move_amount, apply_loop,
}

-- The lesser of two numbers.
abbrev pub least : ℕ → ℕ → ℕ
least a b = if ltb b a then b else a

-- A row with numbers that are not negative, and a public id.
abbrev pub IsOffset : Offset → Type 0
IsOffset o =
    ((neg_part o.amount ≡ 0) × IsInt64 o.amount)
    × ((neg_part o.already_on ≡ 0) × IsInt64 o.already_on)
    × (is_empty o.public_id ≡ false)

-- What is still to be recovered.
abbrev pub owed : Offset → ℕ
owed o = pos_part (o.amount -ℤ o.already_on)

abbrev pub owed_all : List Offset → ℕ
owed_all [] = 0
owed_all (o ∷ os) = owed o + owed_all os

abbrev pub taken_all : List Taken → ℕ
taken_all [] = 0
taken_all (t ∷ ts) = pos_part t.taken.minor + taken_all ts

-- A positive amount is taken, no offset is recovered beyond its amount, the row is settled when all
-- of it is recovered, and `Validate` accepts the entry.
abbrev pub IsFair : Taken → Type 0
IsFair t =
    (0 < pos_part t.taken.minor)
    × (t.new_applied ≡ t.offset.already_on +ℤ t.taken.minor)
    × (pos_part t.new_applied ≤ pos_part t.offset.amount)
    × (validate t.entry ≡ ok tt)

new-Ends :
    (a : ℤ) (c : Currency)
    → Ends
        (IsExpected (IsUnknown c))
        (λ m. m ≡ record { minor = a; cur = c })
        (wrap of_money (new a c))
unfolding new
new-Ends a c = elim (Bool-cases (is_valid c)) [
  | inl known ↦ rw known (returns _ refl)
  | inr unknown ↦ rw unknown (fails _ refl)
]

new_in-Ends :
    (a : ℤ) (c d : Currency)
    → d ≡ c
    → Ends
        (IsExpected (IsUnknown c))
        (λ m. m ≡ record { minor = a; cur = d })
        (wrap of_money (new a d))
new_in-Ends a c d e =
    subst
      (λ x.
        Ends (IsExpected (IsUnknown x)) (λ m. m ≡ record { minor = a; cur = d })
          (wrap of_money (new a d)))
      e (new-Ends a d)

-- An entry of two lines is accepted.
pub transfer_valid :
    (kind description ref_type ref_id key : String) (now : ℤ) (from to : ℕ) (m : Money)
    (from_memo to_memo : String)
    → is_empty kind ≡ false
    → is_empty description ≡ false
    → is_empty ref_type ≡ false
    → is_empty ref_id ≡ false
    → is_empty key ≡ false
    → from ≢ 0
    → to ≢ 0
    → 0 < pos_part m.minor
    → pos_part m.minor < half_word
    → validate (transfer kind description ref_type ref_id key now from to m from_memo to_memo)
      ≡ ok tt
transfer_valid kind description ref_type ref_id key now from to m x y hk hd ht hi hkey hf hto
      positive fit =
    let code = same_code_refl m.cur m.cur refl in
    validate_complete (transfer kind description ref_type ref_id key now from to m x y)
      (hk, hd, ht, hi, hkey) (omega arith)
      ((code, positive, hf, tt), ((code, positive, hto, tt), tt)) (omega arith) (omega arith)

step_lem :
    (out r : ℤ)
    → neg_part r ≡ 0
    → step_by out r ≡ (
        if ltb 0 (pos_part out)
        then if ltb 0 (pos_part r) then take (pos (least (pos_part out) (pos_part r))) else stop
        else skip)
unfolding step_by
step_lem out r h = ground arith

-- What is outstanding is an `int64`.
outstanding_lem : (o : Offset) → IsOffset o → sub64 o.amount o.already_on ≡ o.amount -ℤ o.already_on
outstanding_lem o ((na, ia), (nb, ib), _) =
    sub64_exact o.amount o.already_on (omega sign_laws, omega sign_laws)

step_of_lem :
    (o : Offset) (r : ℤ)
    → IsOffset o
    → neg_part r ≡ 0
    → step_of o r ≡ (
        if ltb 0 (owed o)
        then if ltb 0 (pos_part r) then take (pos (least (owed o) (pos_part r))) else stop
        else skip)
unfolding step_of
step_of_lem o r ho hr = rw (outstanding_lem o ho) (step_lem (o.amount -ℤ o.already_on) r hr)

take_from-IsFair :
    (decimal : Money → String) (now : ℤ) (payable acct : ℕ) (o : Offset) (m : Money)
    → payable ≢ 0
    → acct ≢ 0
    → IsOffset o
    → neg_part m.minor ≡ 0
    → 0 < pos_part m.minor
    → pos_part m.minor ≤ owed o
    → IsFair (take_from decimal now payable acct o m)
take_from-IsFair decimal now payable acct o m hp ha ((na, ia), (nb, ib), public) natural positive
      le =
    let sum : pos_part (o.already_on +ℤ m.minor) ≤ pos_part o.amount = omega sign_laws in
    let exact : add64 o.already_on m.minor ≡ o.already_on +ℤ m.minor =
      add64_exact o.already_on m.minor (omega sign_laws, omega sign_laws) in
    (
      positive,
      exact,
      rw exact sum,
      transfer_valid "adjustment" "Settlement offset applied" "settlement_offset" o.public_id _ now
          payable acct m _ _ refl refl refl public (filled "o" "ffset:" _) hp ha positive
          (omega sign_laws),
    )

least_more : (r a b : ℕ) → a ≡ 0 → least r b ≡ least r (a + b)
least_more r a b h = ground arith

least_facts : (a r : ℕ) → 0 < a → 0 < r → (0 < least a r) × (least a r ≤ a) × (least a r ≤ r)
least_facts a r ha hr = ground arith

least_step :
    (r a b r' s : ℕ) → r' + least a r ≡ r → s ≡ least r' b → least a r + s ≡ least r (a + b)
least_step r a b r' s e h = ground arith

less_parts :
    (a b c : ℤ)
    → neg_part a ≡ 0
    → neg_part b ≡ 0
    → pos_part b ≤ pos_part a
    → c ≡ a -ℤ b
    → (neg_part c ≡ 0) × (pos_part c + pos_part b ≡ pos_part a)
less_parts a b c ha hb le e = (
  omega (sign_laws, ap pos_part e, ap neg_part e),
  omega (sign_laws, ap pos_part e, ap neg_part e),
)

-- What `applyOffsets` gives from a remaining amount r, with a applied before.
abbrev IsNetted : Currency → (r a : ℤ) → List Offset → Money × List Taken → Type 0
IsNetted c r a os (final, ts) =
    IsNatural c final
    × (pos_part final.minor ≡ pos_part a + taken_all ts)
    × (taken_all ts ≡ least (pos_part r) (owed_all os))
    × All IsFair ts

-- An amount t is moved from what remains to what is applied.
abbrev IsMoved : Currency → (t : ℕ) → (remaining applied : Money) → Money × Money × Money → Type 0
IsMoved c t remaining applied (m, more, less) =
    (m.minor ≡ pos t)
    × IsNatural c more
    × IsNatural c less
    × (pos_part more.minor ≡ pos_part applied.minor + t)
    × (pos_part less.minor + t ≡ pos_part remaining.minor)

move_amount-Ends :
    {c : Currency} (t : ℕ) (remaining applied : Money)
    → t ≤ pos_part remaining.minor
    → IsNatural c remaining
    → IsNatural c applied
    → Ends
        (IsExpected (IsUnknown c))
        (IsMoved c t remaining applied)
        (move_amount (pos t) remaining applied)
unfolding move_amount
move_amount-Ends {c} t remaining applied le hr hd =
    bind-Ends (wrap of_money (new (pos t) remaining.cur)) (new_in-Ends (pos t) c remaining.cur hr.0)
      λ m hm.
        let value : m.minor ≡ pos t = ap (λ (x : Money). x.minor) hm in
        let size : pos_part m.minor ≡ t = ap pos_part value in
        let zero : neg_part m.minor ≡ 0 = ap neg_part value in
        let natural : IsNatural c m =
          (ap (λ (x : Money). x.cur) hm ∙ hr.0, zero, (omega arith, omega arith)) in
        bind-Ends (wrap of_money (add applied m))
          (add-IsNatural (IsExpected (IsUnknown c)) of_money tt applied m hd natural)
          λ more (hmore, sum).
            bind-Ends (wrap of_money (sub remaining m))
              (sub-IsNatural (IsExpected (IsUnknown c)) of_money tt remaining m hr natural)
              λ less (own, inside, left_over).
                let (nat, rest) =
                  less_parts remaining.minor m.minor less.minor hr.1 zero (omega arith) left_over in
                returns _
                  (value, hmore, (own, nat, inside), omega (arith, sum), omega (arith, rest))

-- From natural amounts, the loop of `applyOffsets` takes the lesser of what is available and what
-- the offsets owe in all, each by a fair step, or it fails with an expected error.
pub apply_loop-Ends :
    {c : Currency} (decimal : Money → String) (now : ℤ) (payable acct : ℕ) (os : List Offset)
    (remaining applied : Money)
    → payable ≢ 0
    → acct ≢ 0
    → All IsOffset os
    → IsNatural c remaining
    → IsNatural c applied
    → Ends
        (IsExpected (IsUnknown c))
        (IsNetted c remaining.minor applied.minor os)
        (apply_loop decimal now payable acct os remaining applied)
unfolding apply_loop
apply_loop-Ends decimal now payable acct [] remaining applied hp ha h hr hd =
    returns _ (hd, omega arith, ground arith, tt)
apply_loop-Ends {c} decimal now payable acct (o ∷ os) remaining applied hp ha (ho, h) hr hd =
    rw (step_of_lem o remaining.minor ho hr.1, apply_loop)
      (elim (Bool-cases (ltb 0 (owed o))) [
        | inr nothing ↦
            let none : owed o ≡ 0 = ground arith in
            rw nothing (
              weaken-Ends
                (λ x n. (
                  n.0,
                  n.1,
                  n.2 ∙ least_more (pos_part remaining.minor) (owed o) (owed_all os) none,
                  n.3,
                ))
                (apply_loop-Ends decimal now payable acct os remaining applied hp ha h hr hd))
        | inl something ↦ elim (Bool-cases (ltb 0 (pos_part remaining.minor))) [
          | inr empty ↦ rw (something, empty) (returns _ (hd, omega arith, ground arith, tt))
          | inl left ↦
              rw (something, left)
                (let t = least (owed o) (pos_part remaining.minor) in
                  let (positive, le_owed, le_left) =
                    least_facts (owed o) (pos_part remaining.minor) (ground arith) (ground arith) in
                  bind-Ends (move_amount (pos t) remaining applied)
                    (move_amount-Ends t remaining applied le_left hr hd)
                    λ (m, more, less) (value, hmore, hless, sum, rest).
                      bind-Ends (apply_loop decimal now payable acct os less more)
                        (apply_loop-Ends decimal now payable acct os less more hp ha h hless hmore)
                        λ (final, ts) (n, total, all, fair).
                          let size : pos_part m.minor ≡ t = ap pos_part value in
                          returns _ (
                            n,
                            omega (arith, sum, size, total),
                            rw size (
                                least_step (pos_part remaining.minor) (owed o) (owed_all os) _ _
                                  rest all),
                            (
                              take_from-IsFair decimal now payable acct o m hp ha ho
                                  (ap neg_part value) (omega (arith, size)) (omega (arith, size)),
                              fair,
                            ),
                          ))
        ]
      ])
