-- ===== src/Orders/Loss.antt =====
-- The entry of a lost chargeback is one that `Validate` accepts.
use Prim.Native.String.{String}
use mathlib.Core.List.{◌++◌}
use market_place.Prelude.{
  ℕ, ◌+◌, ◌<◌, ◌≡◌, ◌≢◌, refl, sym, ap, ℤ, pos, pos_part, neg_part, true, false, List, [], ◌∷◌,
  length, length-append, All, All-append, Result, ok, err, wrap, arith, IsInt64, parts_cases, ◌-ℤ◌,
  sign_laws, Bool-cases, if_elim, inl, inr, Ends, returns, bind-Ends,
}
use market_place.Money.Types.{
  Money, MoneyError, Currency, zero_of, is_positive, is_negative, new, is_valid,
}
use market_place.Money.Arith.{sub}
use market_place.Money.Sums.{IsNatural, same_code_refl}
use market_place.Ledger.Types.{debit, credit, Line}
use market_place.Ledger.Post.{is_empty, validate}
use market_place.Ledger.Sound.{IsPosting, validate_complete}
use market_place.Orders.Types.{of_money, Accounts, account_by_code}
use market_place.Orders.Refund.{Draft, line_of, clearing_account_code, offset_account_code}
use market_place.Orders.Chargeback.{
  ChargedItem, recovery_account, recover_net, recover_all, absorb_loss, chargeback_header,
  chargeback_entry,
}
use market_place.Orders.Entries.{
  IsExpected, HasIds, account_by_code-Ends, seller_account-Ends, debits-append, credits-append,
  debits-IsPosting, filled,
}
use market_place.Orders.Amounts.{sub-IsNatural}
use market_place.Orders.Reversal.{IsDraft, book-Ends, IsAbsorbed, abs_negative}

-- Every share of a seller is an `int64`, as in the database.
abbrev pub AreRows : List ChargedItem → Type 0
AreRows = All (λ l. IsInt64 (l.net))

recovery_account-Ends :
    (a : Accounts) (lower : String → String) (c : Currency) (l : ChargedItem)
    → HasIds a
    → Ends (IsExpected ⊥) (λ id. id ≢ 0) (recovery_account a lower c l)
recovery_account-Ends a lower c l ids =
    if_elim (Ends (IsExpected ⊥) (λ id. id ≢ 0)) (l.settled_away)
      (λ _. account_by_code-Ends ⊥ a (offset_account_code lower c) ids)
      (λ _. seller_account-Ends ⊥ a (l.seller_id) "payable" c ids)

recover_net-Ends :
    (a : Accounts) (lower : String → String) (c : Currency) (l : ChargedItem) (d : Draft)
    (r : Result MoneyError Money)
    → HasIds a
    → IsInt64 (l.net)
    → ((net : Money) → r ≡ ok net → (net.cur ≡ c) × (net.minor ≡ l.net))
    → IsDraft c d
    → Ends (IsExpected ⊥) (IsDraft c) (recover_net a lower c l d r)
recover_net-Ends a lower c l d (err e) ids fits same hd = returns d hd
recover_net-Ends a lower c l d (ok net) ids fits same hd =
    let (own, value) = same net refl in
    elim (Bool-cases (is_positive net)) [
      | inr nothing ↦ rw nothing (returns d hd)
      | inl more ↦
          let natural : IsNatural c net = (own, ground arith, rw (value) fits) in
          rw more (
            bind-Ends (recovery_account a lower c l) (recovery_account-Ends a lower c l ids)
              λ acct id. book-Ends acct net _ d id natural more hd)
    ]

new_lem : (n : ℤ) (c : Currency) (net : Money) → new n c ≡ ok net → (net.cur ≡ c) × (net.minor ≡ n)
unfolding new
new_lem n c net e = elim (Bool-cases (is_valid c)) [
  | inl valid ↦
      (let made = rw (valid) at e in
        let same : record { minor = n; cur = c } ≡ net = cc in
        (sym (ap (λ m. m.cur) same), sym (ap (λ m. m.minor) same)))
  | inr unknown ↦ absurd (let bad = rw (unknown) at e in cc)
]

recover_all-Ends :
    (a : Accounts) (lower : String → String) (c : Currency) (ls : List ChargedItem) (d : Draft)
    → HasIds a
    → AreRows ls
    → IsDraft c d
    → Ends (IsExpected ⊥) (IsDraft c) (recover_all a lower c ls d)
unfolding recover_all
recover_all-Ends a lower c [] d ids h hd = returns d hd
recover_all-Ends a lower c (l ∷ ls) d ids (fits, h) hd =
    bind-Ends (recover_net a lower c l d (new (l.net) c))
      (recover_net-Ends a lower c l d (new (l.net) c) ids fits (λ net e. new_lem (l.net) c net e)
        hd)
      λ next hn. recover_all-Ends a lower c ls next ids h hn

absorb_loss-Ends :
    {c : Currency} (acct : ℕ) (amount absorbed : Money) (d : Draft)
    → acct ≢ 0
    → IsNatural c amount
    → IsDraft c d
    → (absorbed.cur ≡ c) × IsInt64 absorbed.minor × (absorbed.minor ≡ amount.minor -ℤ d.1.minor)
    → Ends (IsExpected ⊥) (IsAbsorbed c amount) (absorb_loss acct d.0 absorbed)
unfolding absorb_loss
absorb_loss-Ends {c} acct amount absorbed (lines, allocated) id (ca, na, ia)
      (postings, (cl, nl, il), ds, cs) (own, fit, value) =
    let parts : pos_part absorbed.minor + pos_part allocated.minor
        ≡ neg_part absorbed.minor + pos_part amount.minor =
      omega (sign_laws, ap pos_part value, ap neg_part value) in
    elim (Bool-cases (is_positive absorbed)) [
      | inl more ↦
          let l =
            line_of debit acct absorbed "platform share of the charged-back amount, absorbed" in
          let posting : IsPosting c l =
            (same_code_refl absorbed.cur c (sym own), ground arith, id, tt) in
          rw more (
            returns _ (
              All-append (IsPosting c) lines (l ∷ []) postings (posting, tt),
              omega (
                arith,
                debits-append lines (l ∷ []),
                credits-append lines (l ∷ []),
                parts_cases absorbed.minor,
              ),
              omega (arith, debits-append lines (l ∷ []), parts_cases absorbed.minor),
            ))
      | inr other ↦ elim (Bool-cases (is_negative absorbed)) [
        | inl negative ↦
            let size : Money = record {
              minor = pos (neg_part absorbed.minor);
              cur = absorbed.cur;
            } in
            let l = line_of credit acct size "recovery in excess of the charged-back amount" in
            let posting : IsPosting c l =
              (same_code_refl absorbed.cur c (sym own), ground arith, id, tt) in
            rw
              (
                other,
                negative,
                abs_negative absorbed negative (omega (arith, parts_cases absorbed.minor)),
              )
              (returns _ (
                All-append (IsPosting c) lines (l ∷ []) postings (posting, tt),
                omega (
                  arith,
                  debits-append lines (l ∷ []),
                  credits-append lines (l ∷ []),
                  parts_cases absorbed.minor,
                ),
                omega (arith, debits-append lines (l ∷ [])),
              ))
        | inr exact ↦ rw (other, exact) (returns lines (postings, ground arith, omega arith))
      ]
    ]

closed_loss :
    (c : Currency) (order_public dispute : String) (now : ℤ) (lines : List Line) (clearing : ℕ)
    (amount : Money)
    → is_empty order_public ≡ false
    → clearing ≢ 0
    → IsNatural c amount
    → is_positive amount ≡ true
    → IsAbsorbed c amount lines
    → validate (
        chargeback_header c order_public dispute now
          (lines ++ (line_of credit clearing amount "debited by the acquirer" ∷ [])))
      ≡ ok tt
closed_loss c order_public dispute now lines clearing amount public nonzero hm positive
      (postings, balance, fit) =
    let last = line_of credit clearing amount "debited by the acquirer" in
    let posting : IsPosting c last =
      (same_code_refl amount.cur c (sym hm.0), ground arith, nonzero, tt) in
    let some : 0 < length lines = debits-IsPosting c lines (ground arith) in
    validate_complete (chargeback_header c order_public dispute now (lines ++ (last ∷ [])))
      (
        refl,
        filled "C" "hargeback lost on order " order_public,
        refl,
        public,
        filled "c" "hargeback:" dispute,
      )
      (omega (arith, length-append lines (last ∷ [])))
      (All-append (IsPosting c) lines (last ∷ []) postings (posting, tt))
      (omega (arith, debits-append lines (last ∷ []), credits-append lines (last ∷ [])))
      (omega (arith, debits-append lines (last ∷ [])))

-- For a positive amount, rows whose shares are `int64` values, an order with a public id and accounts
-- with ids, `postChargebackLoss` makes an entry that `Validate` accepts, whether the shares of the
-- sellers come to less than the amount or to more; or it fails because an account is missing or a
-- sum is no `int64`.
pub chargeback_entry-Ends :
    (a : Accounts) (lower : String → String) (provider order_public dispute : String)
    (items : List ChargedItem) (amount : Money) (now : ℤ)
    → HasIds a
    → is_empty order_public ≡ false
    → AreRows items
    → IsNatural amount.cur amount
    → is_positive amount ≡ true
    → Ends
        (IsExpected ⊥)
        (λ e. validate e ≡ ok tt)
        (chargeback_entry a lower provider order_public dispute items amount now)
unfolding chargeback_entry
chargeback_entry-Ends a lower provider order_public dispute items amount now ids public rows hm
      positive =
    let c = amount.cur in
    bind-Ends (account_by_code a (clearing_account_code provider)) (account_by_code-Ends ⊥ a _ ids)
      λ clearing nonzero.
        bind-Ends (account_by_code a "platform.expense.chargeback_loss")
          (account_by_code-Ends ⊥ a _ ids)
          λ loss id.
            bind-Ends (recover_all a lower c items ([], zero_of c))
              (recover_all-Ends a lower c items ([], zero_of c) ids rows
                (tt, (refl, refl, omega arith), refl, refl))
              λ (lines, recovered) hd.
                bind-Ends (wrap of_money (sub amount recovered))
                  (sub-IsNatural (IsExpected ⊥) of_money tt amount recovered hm hd.1)
                  λ absorbed hr.
                    bind-Ends (absorb_loss loss lines absorbed)
                      (absorb_loss-Ends loss amount absorbed (lines, recovered) id hm hd hr)
                      λ closed ha. returns _ (
                        closed_loss c order_public dispute now closed clearing amount public nonzero
                          hm positive ha)
