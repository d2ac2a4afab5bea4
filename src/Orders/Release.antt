-- ===== src/Orders/Release.antt =====
-- What `releaseOne` does with a transfer's amount.
use Prim.Native.String.{String}
use market_place.Prelude.{
  ℕ, ◌+◌, ◌-◌, ◌*◌, ◌≤◌, ◌≡◌, ◌≢◌, inl, inr, refl, ap, ℤ, pos, pos_part, neg_part, nat_abs, false,
  ltb_ℤ, List, [], ◌∷◌, All, ok, wrap, arith, ◌-ℤ◌, sign_laws, Bool-cases, Ends, returns, fails,
  bind-Ends, weaken-Ends,
}
use market_place.Money.Types.{Money, Currency, zero_of, is_positive, down}
use market_place.Money.Exact.{fits, sign_of}
use market_place.Money.Round.{IsRounded, mul_div_round_exact}
use market_place.Money.Arith.{sub, mul_ratio, apply_basis_points}
use market_place.Money.Sums.{IsNatural, fits-IsInt64}
use market_place.Ledger.Post.{is_empty, validate}
use market_place.Orders.Types.{of_money, Accounts, account_by_code, seller_account}
use market_place.Orders.Refund.{clearing_account_code, offset_account_code}
use market_place.Orders.Amounts.{sub-IsNatural}
use market_place.Orders.Entries.{
  IsExpected, IsUnknown, HasIds, filled, account_by_code-Ends, seller_account-Ends,
}
use market_place.Orders.Settlement.{
  Offset, Taken, apply_some, apply_offsets, withhold, Release, Released, reserve_entries,
  settle_entries, release_one,
}
use market_place.Orders.Offsets.{
  IsOffset, IsFair, least, owed_all, taken_all, transfer_valid, apply_loop-Ends,
}

IsRounded-le : (a b x : ℕ) → b ≤ 10_000 → IsRounded down (a * b) 10_000 x → x ≤ a
IsRounded-le a b x h r = grind arith

withhold-Ends :
    {c : Currency} (m : Money) (bps : ℤ)
    → IsNatural c m
    → (neg_part bps ≡ 0) × (pos_part bps ≤ 10_000)
    → Ends
        (IsExpected (IsUnknown c))
        (λ r. IsNatural c r × (pos_part r.minor ≤ pos_part m.minor))
        (withhold m bps)
unfolding withhold apply_basis_points mul_ratio
withhold-Ends {c} m bps (own, nat, inside) (hn, hb) = elim (Bool-cases (ltb_ℤ (pos 0) bps)) [
  | inr none ↦ rw none (returns _ ((own, refl, (omega arith, omega arith)), omega arith))
  | inl some ↦
      let (x, exact, e) =
        mul_div_round_exact m.minor bps (pos 10_000) down inside (omega arith, omega arith)
          (omega arith) (omega arith) tt in
      let sign : sign_of m.minor bps (pos 10_000) ≡ false = ground arith in
      let abs_m : nat_abs m.minor ≡ pos_part m.minor = omega arith in
      let abs_b : nat_abs bps ≡ pos_part bps = omega arith in
      rw (some, e, sign)
        (elim (Bool-cases (fits (pos x))) [
          | inl fit ↦ rw fit (
              returns _ (
                (own, refl, fits-IsInt64 (pos x) fit),
                IsRounded-le (pos_part m.minor) (pos_part bps) x hb (rw (abs_m, abs_b) at exact),
              ))
          | inr wide ↦ rw wide (fails _ tt)
        ])
]

reserve_entries-Ends :
    {c : Currency} (a : Accounts) (r : Release) (payable : ℕ) (m : Money)
    → HasIds a
    → is_empty r.item ≡ false
    → payable ≢ 0
    → IsNatural c m
    → Ends (IsExpected (IsUnknown c)) (All λ e. validate e ≡ ok tt) (reserve_entries a r payable m)
unfolding reserve_entries
reserve_entries-Ends {c} a r payable m ids item hp (own, nat, inside) =
    elim (Bool-cases (is_positive m)) [
      | inr none ↦ rw none (returns _ tt)
      | inl some ↦ rw some (
          bind-Ends (seller_account a r.seller_id "reserve" r.amount.cur)
            (seller_account-Ends (IsUnknown c) a _ _ _ ids)
            λ acct id. returns _ (
              transfer_valid "rolling_reserve_hold" _ "order_item" r.item _ r.now payable acct m _ _
                  refl (filled "R" "olling reserve withheld on settlement for " _) refl item
                  (filled "r" "eserve:" _) hp id (ground arith) inside.0,
              tt,
            ))
    ]

settle_entries-Ends :
    {c : Currency} (a : Accounts) (r : Release) (payable : ℕ) (m : Money)
    → HasIds a
    → is_empty r.item ≡ false
    → payable ≢ 0
    → IsNatural c m
    → Ends (IsExpected (IsUnknown c)) (All λ e. validate e ≡ ok tt) (settle_entries a r payable m)
unfolding settle_entries
settle_entries-Ends {c} a r payable m ids item hp (own, nat, inside) =
    elim (Bool-cases (is_positive m)) [
      | inr none ↦ rw none (returns _ tt)
      | inl some ↦ rw some (
          bind-Ends (account_by_code a (clearing_account_code r.provider))
            (account_by_code-Ends (IsUnknown c) a _ ids)
            λ acct id. returns _ (
              transfer_valid "settlement_release" _ "order_item" r.item _ r.now payable acct m _ _
                  refl (filled "S" "ettlement released for " _) refl item (filled "s" "ettle:" _) hp
                  id (ground arith) inside.0,
              tt,
            ))
    ]

-- What `applyOffsets` takes from an available amount.
abbrev pub IsRecovered : Currency → Money → List Offset → Money × List Taken → Type 0
IsRecovered c available os (applied, ts) =
    IsNatural c applied
    × (pos_part applied.minor ≡ taken_all ts)
    × (taken_all ts ≡ least (pos_part available.minor) (owed_all os))
    × All IsFair ts

apply_some-Ends :
    {c : Currency} (a : Accounts) (lower : String → String) (decimal : Money → String) (now : ℤ)
    (payable : ℕ) (os : List Offset) (available : Money)
    → HasIds a
    → payable ≢ 0
    → All IsOffset os
    → IsNatural c available
    → Ends
        (IsExpected (IsUnknown c))
        (IsRecovered c available os)
        (apply_some a lower decimal now payable os available)
apply_some-Ends a lower decimal now payable [] available ids hp ho (own, nat, inside) =
    returns _ ((own, refl, (omega arith, omega arith)), refl, ground arith, tt)
apply_some-Ends {c} a lower decimal now payable (o ∷ os) available ids hp ho (own, nat, inside) =
    bind-Ends (account_by_code a (offset_account_code lower available.cur))
      (account_by_code-Ends (IsUnknown c) a _ ids)
      λ acct id.
        weaken-Ends (λ (applied, ts) (n, sum, all, fair). (n, omega (arith, sum), all, fair))
          (apply_loop-Ends decimal now payable acct (o ∷ os) available (zero_of available.cur) hp id
            ho (own, nat, inside) (own, refl, (omega arith, omega arith)))

-- From a natural amount, `applyOffsets` takes the lesser of what is available and what the seller's
-- offsets owe in all: each offset it touches is recovered by a positive amount, not beyond what it
-- owes, with an entry that `Validate` accepts. Else an account is missing, a number is no `int64`, or
-- the currency is not in the table.
pub apply_offsets-Ends :
    {c : Currency} (a : Accounts) (lower : String → String) (decimal : Money → String) (now : ℤ)
    (payable : ℕ) (os : List Offset) (available : Money)
    → HasIds a
    → payable ≢ 0
    → All IsOffset os
    → IsNatural c available
    → Ends
        (IsExpected (IsUnknown c))
        (IsRecovered c available os)
        (apply_offsets a lower decimal now payable os available)
unfolding apply_offsets
apply_offsets-Ends {c} a lower decimal now payable os available ids hp ho ha =
    elim (Bool-cases (is_positive available)) [
      | inr none ↦
          rw none (returns _ ((ha.0, refl, (omega arith, omega arith)), refl, ground arith, tt))
      | inl some ↦ rw some (apply_some-Ends a lower decimal now payable os available ids hp ho ha)
    ]

-- What a release makes of its amount: a reserve, what is recovered for the seller's offsets, and what
-- is paid out. These are natural and add up to the amount, no offset is taken beyond what it owes,
-- and `Validate` accepts every entry.
abbrev pub IsReleased : Currency → Release → Released → Type 0
IsReleased c r w =
    (pos_part r.amount.minor
      ≡ pos_part w.reserve.minor + pos_part w.applied.minor + pos_part w.net.minor)
    × IsNatural c w.reserve
    × IsNatural c w.applied
    × IsNatural c w.net
    × (pos_part w.applied.minor
        ≡ least (pos_part r.amount.minor - pos_part w.reserve.minor) (owed_all r.offsets))
    × All IsFair w.taken
    × All (λ e. validate e ≡ ok tt) w.before_offsets
    × All (λ e. validate e ≡ ok tt) w.after_offsets

difference_natural :
    (x y z : ℤ)
    → neg_part x ≡ 0
    → neg_part y ≡ 0
    → pos_part y ≤ pos_part x
    → z ≡ x -ℤ y
    → (neg_part z ≡ 0) × (pos_part z ≡ pos_part x - pos_part y)
difference_natural x y z hx hy le e = (
  omega (sign_laws, ap pos_part e, ap neg_part e),
  omega (sign_laws, ap pos_part e, ap neg_part e),
)

-- For a natural amount, a reserve rate of at most 10,000 basis points, offsets of natural numbers,
-- filled texts and accounts with ids, `releaseOne` splits the amount exactly: reserve, recovered and
-- paid out add up to it. It recovers the lesser of the amount after the reserve and of what the
-- offsets owe, and `Validate` accepts all of its entries. Else an account is missing, a number is no
-- `int64`, or the currency is not in the table.
pub release_one-Ends :
    {c : Currency} (a : Accounts) (lower : String → String) (decimal : Money → String) (r : Release)
    → HasIds a
    → is_empty r.item ≡ false
    → IsNatural c r.amount
    → (neg_part r.reserve_bps ≡ 0) × (pos_part r.reserve_bps ≤ 10_000)
    → All IsOffset r.offsets
    → Ends (IsExpected (IsUnknown c)) (IsReleased c r) (release_one a lower decimal r)
unfolding release_one
release_one-Ends {c} a lower decimal r ids item hm hb ho =
    bind-Ends (seller_account a r.seller_id "payable" r.amount.cur)
      (seller_account-Ends (IsUnknown c) a _ _ _ ids)
      λ payable hp.
        bind-Ends (withhold r.amount r.reserve_bps) (withhold-Ends r.amount r.reserve_bps hm hb)
          λ reserve (hr, le).
            bind-Ends (reserve_entries a r payable reserve)
              (reserve_entries-Ends a r payable reserve ids item hp hr)
              λ held valid_held.
                bind-Ends (wrap of_money (sub r.amount reserve))
                  (sub-IsNatural (IsExpected (IsUnknown c)) of_money tt r.amount reserve hm hr)
                  λ rest (own, inside, value).
                    let (nat, left) =
                      difference_natural r.amount.minor reserve.minor rest.minor hm.1 hr.1 le
                        value in
                    bind-Ends (apply_offsets a lower decimal r.now payable r.offsets rest)
                      (apply_offsets-Ends a lower decimal r.now payable r.offsets rest ids hp ho
                        (own, nat, inside))
                      λ (applied, ts) (ha, sum, all, fair).
                        bind-Ends (wrap of_money (sub rest applied))
                          (sub-IsNatural (IsExpected (IsUnknown c)) of_money tt rest applied
                            (own, nat, inside) ha)
                          λ net (own', inside', value').
                            let (nat', left') =
                              difference_natural rest.minor applied.minor net.minor nat ha.1
                                (ground arith) value' in
                            bind-Ends (settle_entries a r payable net)
                              (settle_entries-Ends a r payable net ids item hp
                                (own', nat', inside'))
                              λ paid valid_paid. returns _ (
                                ground arith,
                                hr,
                                ha,
                                (own', nat', inside'),
                                rw (sum, ← left) all,
                                fair,
                                valid_held,
                                valid_paid,
                              )
