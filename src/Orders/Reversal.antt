-- ===== src/Orders/Reversal.antt =====
-- The entry of a refund is one that `Validate` accepts.
use Prim.Native.String.{String}
use mathlib.Core.List.{◌++◌}
use market_place.Prelude.{
  ℕ, ◌+◌, ◌^◌, ◌≤◌, ◌<◌, ◌≡◌, ◌≢◌, refl, sym, ap, ℤ, pos, pos_part, neg_part, Bool, true, false,
  List, [], ◌∷◌, length, length-append, All, All-append, Result, ok, wrap, arith, half_word,
  IsInt64, min_int64, ◌==ℤ◌, leb_ℤ, neg64_exact, parts_cases, ◌-ℤ◌, sign_laws, Bool-cases, inl, inr,
  Ends, returns, bind-Ends,
}
use market_place.Money.Types.{Money, Currency, zero_of, is_positive, is_zero, is_negative}
use market_place.Money.Arith.{add, sub, abs, neg}
use market_place.Money.Sums.{IsNatural, same_code_refl}
use market_place.Ledger.Types.{debit, credit, Line}
use market_place.Ledger.Post.{is_empty, validate}
use market_place.Ledger.Sound.{debits, credits, IsPosting, validate_complete}
use market_place.Orders.Types.{
  LineBreakdown, Order, OrderError, of_money, Accounts, account_by_code, seller_account,
}
use market_place.Orders.Refund.{
  Draft, line_of, book, reverse_on, reverse_seller, reverse_components, components, residue_line,
  absorb, refund_header, refund_entry, scale_to_refund, clearing_account_code, offset_account_code,
}
use market_place.Orders.Entries.{
  IsExpected, HasIds, account_by_code-Ends, seller_account-Ends, debits-append, credits-append,
  debits-IsPosting, filled,
}
use market_place.Orders.Amounts.{add-IsNatural, sub-IsNatural, scale-IsNatural}

-- What the lines so far and `allocated` satisfy: debits alone, and their sum.
abbrev pub IsDraft : Currency → Draft → Type 0
IsDraft c (lines, allocated) =
    All (IsPosting c) lines
    × IsNatural c allocated
    × (debits lines ≡ pos_part allocated.minor)
    × (credits lines ≡ 0)

pub book-Ends :
    {c : Currency} (acct : ℕ) (share : Money) (memo : String) (d : Draft)
    → acct ≢ 0
    → IsNatural c share
    → is_positive share ≡ true
    → IsDraft c d
    → Ends (IsExpected ⊥) (IsDraft c) (book acct share memo d)
unfolding book
book-Ends {c} acct share memo (lines, allocated) id hs positive (postings, ha, ds, cs) =
    bind-Ends (wrap of_money (add allocated share))
      (add-IsNatural (IsExpected ⊥) of_money tt allocated share ha hs)
      λ more (natural, sum).
        let last = line_of debit acct share memo in
        let posting : IsPosting c last =
          (same_code_refl share.cur c (sym hs.0), ground arith, id, tt) in
        returns _ (
          All-append (IsPosting c) lines (last ∷ []) postings (posting, tt),
          natural,
          omega (arith, debits-append lines (last ∷ [])),
          omega (arith, credits-append lines (last ∷ [])),
        )

reverse_on-Ends :
    {c : Currency} (account : Result OrderError ℕ) (component : Money) (memo : String)
    (amount total : Money) (d : Draft)
    → Ends (IsExpected ⊥) (λ id. id ≢ 0) account
    → IsNatural c component
    → IsNatural c amount
    → IsNatural c total × (pos_part total.minor ≤ 2 ^ 62)
    → IsDraft c d
    → Ends (IsExpected ⊥) (IsDraft c) (reverse_on account component memo amount total d)
unfolding reverse_on
reverse_on-Ends {c} account component memo amount total d ha hc hm (ht, small) hd =
    bind-Ends (wrap of_money (scale_to_refund component amount total))
      (scale-IsNatural (IsExpected ⊥) of_money tt component amount total hc hm ht small)
      λ share hs. elim (Bool-cases (is_positive share)) [
        | inr nothing ↦ rw nothing (returns d hd)
        | inl more ↦
            rw more (bind-Ends account ha λ acct id. book-Ends acct share memo d id hs more hd)
      ]

reverse_components-Ends :
    {c : Currency} (a : Accounts) (amount total : Money) (cs : List (String × Money × String))
    (d : Draft)
    → HasIds a
    → All (λ x. IsNatural c x.1) cs
    → IsNatural c amount
    → IsNatural c total × (pos_part total.minor ≤ 2 ^ 62)
    → IsDraft c d
    → Ends (IsExpected ⊥) (IsDraft c) (reverse_components a amount total cs d)
unfolding reverse_components
reverse_components-Ends a amount total [] d ids hc hm ht hd = returns d hd
reverse_components-Ends a amount total ((code, component, memo) ∷ cs) d ids (h, hc) hm ht hd =
    bind-Ends (reverse_on (account_by_code a code) component memo amount total d)
      (reverse_on-Ends (account_by_code a code) component memo amount total d
        (account_by_code-Ends ⊥ a code ids) h hm ht hd)
      λ next hn. reverse_components-Ends a amount total cs next ids hc hm ht hn

-- The lines of the entry but the last, which credits the amount.
abbrev pub IsAbsorbed : Currency → Money → List Line → Type 0
IsAbsorbed c amount lines =
    All (IsPosting c) lines
    × (debits lines ≡ credits lines + pos_part amount.minor)
    × (debits lines < half_word)

pub abs_negative :
    (m : Money)
    → is_negative m ≡ true
    → neg_part m.minor < half_word
    → abs m ≡ ok (record { minor = pos (neg_part m.minor); cur = m.cur })
unfolding abs neg ◌-ℤ◌
abs_negative m negative fit =
    let least : (m.minor ==ℤ min_int64) ≡ false = ground arith in
    let below : leb_ℤ (pos 0) m.minor ≡ false = ground arith in
    let inside : IsInt64 (pos 0 -ℤ m.minor) = ground arith in
    let value : pos 0 -ℤ m.minor ≡ pos (neg_part m.minor) = ground arith in
    rw (below, least, neg64_exact m.minor inside, value)

residue_line-Ends :
    {c : Currency} (acct : ℕ) (residue : Money)
    → acct ≢ 0
    → residue.cur ≡ c
    → is_zero residue ≡ false
    → neg_part residue.minor < half_word
    → Ends
        (IsExpected ⊥)
        (λ l.
          IsPosting c l
          × (debits (l ∷ []) ≡ pos_part residue.minor)
          × (credits (l ∷ []) ≡ neg_part residue.minor))
        (residue_line acct residue)
unfolding residue_line
residue_line-Ends {c} acct residue id own nonzero fit = elim (Bool-cases (is_negative residue)) [
  | inl negative ↦
      rw (negative, abs_negative residue negative fit)
        (returns _ (
          (same_code_refl residue.cur c (sym own), ground arith, id, tt),
          ground arith,
          ground arith,
        ))
  | inr other ↦ rw other (
      returns _ (
        (same_code_refl residue.cur c (sym own), ground arith, id, tt),
        ground arith,
        ground arith,
      ))
]

absorb-Ends :
    {c : Currency} (a : Accounts) (amount residue : Money) (d : Draft)
    → HasIds a
    → IsNatural c amount
    → IsDraft c d
    → (residue.cur ≡ c) × IsInt64 residue.minor × (residue.minor ≡ amount.minor -ℤ d.1.minor)
    → Ends (IsExpected ⊥) (IsAbsorbed c amount) (absorb a d.0 residue)
unfolding absorb
absorb-Ends {c} a amount residue (lines, allocated) ids (ca, na, ia)
      (postings, (cl, nl, il), ds, cs) (own, fit, value) =
    let parts : pos_part residue.minor + pos_part allocated.minor
        ≡ neg_part residue.minor + pos_part amount.minor =
      omega (sign_laws, ap pos_part value, ap neg_part value) in
    elim (Bool-cases (is_zero residue)) [
      | inl exact ↦ rw exact (returns lines (postings, ground arith, omega arith))
      | inr rest ↦ rw rest (
          bind-Ends (account_by_code a "platform.expense.refund_absorbed")
            (account_by_code-Ends ⊥ a "platform.expense.refund_absorbed" ids)
            λ acct id.
              bind-Ends (residue_line acct residue)
                (residue_line-Ends acct residue id own rest
                  (omega (arith, parts_cases residue.minor)))
                λ l (posting, dl, ol). returns _ (
                  All-append (IsPosting c) lines (l ∷ []) postings (posting, tt),
                  omega (arith, debits-append lines (l ∷ []), credits-append lines (l ∷ [])),
                  omega (arith, parts_cases residue.minor, debits-append lines (l ∷ [])),
                ))
    ]

-- The amounts of a breakdown that a refund scales are natural amounts in the currency c, and what
-- was paid is at most 2 ^ 62.
abbrev pub IsScalable : Currency → LineBreakdown → Type 0
IsScalable c line =
    IsNatural c line.breakdown.seller_net
    × IsNatural c line.breakdown.commission
    × IsNatural c line.breakdown.commission_gst
    × IsNatural c line.breakdown.tcs
    × IsNatural c line.breakdown.tds
    × IsNatural c line.breakdown.buyer_total
    × (pos_part line.breakdown.buyer_total.minor ≤ 2 ^ 62)

reverse_seller-Ends :
    {c : Currency} (a : Accounts) (lower : String → String) (line : LineBreakdown)
    (settled_away : Bool) (amount : Money) (d : Draft)
    → HasIds a
    → IsScalable c line
    → IsNatural c amount
    → IsDraft c d
    → Ends (IsExpected ⊥) (IsDraft c) (reverse_seller a lower c line settled_away amount d)
unfolding reverse_seller
reverse_seller-Ends {c} a lower line true amount d ids (net, _, _, _, _, total, small) hm hd =
    reverse_on-Ends (account_by_code a (offset_account_code lower c)) line.breakdown.seller_net _
      amount line.breakdown.buyer_total d (account_by_code-Ends ⊥ a _ ids) net hm (total, small) hd
reverse_seller-Ends {c} a lower line false amount d ids (net, _, _, _, _, total, small) hm hd =
    reverse_on-Ends (seller_account a line.seller_id "payable" c) line.breakdown.seller_net _ amount
      line.breakdown.buyer_total d (seller_account-Ends ⊥ a _ _ _ ids) net hm (total, small) hd

-- The last line closes the entry.
closed-validate :
    (o : Order) (id : String) (now : ℤ) (lines : List Line) (clearing : ℕ) (amount : Money)
    → is_empty o.public_id ≡ false
    → clearing ≢ 0
    → IsNatural o.currency amount
    → is_positive amount ≡ true
    → IsAbsorbed o.currency amount lines
    → validate (
        refund_header o id now
          (lines ++ (line_of credit clearing amount "returned to the buyer" ∷ [])))
      ≡ ok tt
closed-validate o id now lines clearing amount public nonzero hm positive (postings, balance, fit) =
    let last = line_of credit clearing amount "returned to the buyer" in
    let posting : IsPosting o.currency last =
      (same_code_refl amount.cur o.currency (sym hm.0), ground arith, nonzero, tt) in
    let some : 0 < length lines = debits-IsPosting o.currency lines (ground arith) in
    validate_complete (refund_header o id now (lines ++ (last ∷ [])))
      (refl, filled "R" "efund on order " o.number, refl, public, filled "r" "efund:" id)
      (omega (arith, length-append lines (last ∷ [])))
      (All-append (IsPosting o.currency) lines (last ∷ []) postings (posting, tt))
      (omega (arith, debits-append lines (last ∷ []), credits-append lines (last ∷ [])))
      (omega (arith, debits-append lines (last ∷ [])))

-- For a positive amount and a line of natural amounts in the order's currency, at most 2 ^ 62 of it
-- paid, an order with a public id, and accounts with ids, `postRefundLedger` makes an entry that
-- `Validate` accepts, or fails because an account is missing or an amount is no `int64`.
pub refund_entry-Ends :
    (a : Accounts) (lower : String → String) (provider : String) (o : Order) (line : LineBreakdown)
    (amount : Money) (settled_away : Bool) (id : String) (now : ℤ)
    → HasIds a
    → is_empty o.public_id ≡ false
    → IsScalable o.currency line
    → IsNatural o.currency amount
    → is_positive amount ≡ true
    → Ends
        (IsExpected ⊥)
        (λ e. validate e ≡ ok tt)
        (refund_entry a lower provider o line amount settled_away id now)
unfolding refund_entry
refund_entry-Ends a lower provider o line amount settled_away id now ids public hl hm positive =
    let c = o.currency in
    let total = line.breakdown.buyer_total in
    let (net, com1, gst, tcs, tds, ht, small) = hl in
    bind-Ends (account_by_code a (clearing_account_code provider)) (account_by_code-Ends ⊥ a _ ids)
      λ clearing nonzero.
        bind-Ends (reverse_seller a lower c line settled_away amount ([], zero_of c))
          (reverse_seller-Ends a lower line settled_away amount ([], zero_of c) ids hl hm
            (tt, (refl, refl, omega arith), refl, refl))
          λ after_seller hs.
            bind-Ends (reverse_components a amount total (components line) after_seller)
              (reverse_components-Ends a amount total (components line) after_seller ids
                (com1, (gst, (tcs, (tds, tt)))) hm (ht, small) hs)
              λ (lines, allocated) hd.
                bind-Ends (wrap of_money (sub amount allocated))
                  (sub-IsNatural (IsExpected ⊥) of_money tt amount allocated hm hd.1)
                  λ residue hr.
                    bind-Ends (absorb a lines residue)
                      (absorb-Ends a amount residue (lines, allocated) ids hm hd hr)
                      λ absorbed ha. returns _ (
                        closed-validate o id now absorbed clearing amount public nonzero hm positive
                          ha)
