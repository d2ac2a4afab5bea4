-- ===== src/Orders/Balanced.antt =====
-- The entries of a capture are ones that `Validate` accepts.
use Prim.Native.String.{String, ◌++◌ as ◌⧺◌}
use market_place.Prelude.{
  ℕ, ◌+◌, ◌≤◌, ◌<◌, ◌≡◌, ◌≢◌, refl, sym, ℤ, pos_part, false, List, [], ◌∷◌, length, All, All-append,
  ok, wrap, arith, Bool-cases, inl, inr, Ends, returns, bind-Ends,
}
use market_place.Money.Types.{Money, Currency, zero_of, is_positive}
use market_place.Money.Arith.{add}
use market_place.Money.Sums.{IsNatural, same_code_refl}
use market_place.Ledger.Types.{Direction, debit, credit, other, Line}
use market_place.Ledger.Post.{is_empty, validate}
use market_place.Ledger.Sound.{debits, credits, debit_of, credit_of, IsPosting, validate_complete}
use market_place.Orders.Types.{
  LineBreakdown, Order, of_money, Accounts, account_by_code, seller_account,
}
use market_place.Orders.Refund.{line_of, clearing_account_code}
use market_place.Orders.Amounts.{add-IsNatural}
use market_place.Orders.Entries.{
  IsExpected, HasIds, filled, account_by_code-Ends, seller_account-Ends, debits-append,
  credits-append,
}
use market_place.Orders.Capture.{
  Totals, no_totals, credit_if, add_totals, credit_sellers, credit_totals, order_entry,
  capture_entry,
}

-- Lines that may be posted, with these sums.
abbrev Sums : Currency → List Line → (d k : ℕ) → Type 0
Sums c ls d k = All (IsPosting c) ls × (debits ls ≡ d) × (credits ls ≡ k)

credit_if-Sums :
    {c : Currency} {d k : ℕ} (acct : ℕ) (m : Money) (memo : String) (ls : List Line)
    → acct ≢ 0
    → IsNatural c m
    → Sums c ls d k
    → Sums c (credit_if acct m memo ls) d (k + pos_part m.minor)
unfolding credit_if
credit_if-Sums {c} acct m memo ls id (own, nat, inside) (postings, ds, ks) =
    elim (Bool-cases (is_positive m)) [
      | inr nothing ↦ rw nothing (postings, ds, ground arith)
      | inl more ↦
          let last = line_of credit acct m memo in
          let posting : IsPosting c last =
            (same_code_refl m.cur c (sym own), ground arith, id, tt) in
          rw more (
            All-append (IsPosting c) ls (last ∷ []) postings (posting, tt),
            omega (arith, debits-append ls (last ∷ [])),
            omega (arith, credits-append ls (last ∷ [])),
          )
    ]

-- A line as `Compute` prices it when the platform bears the provider's fee: what the buyer pays is
-- the seller's share, the commission and its GST, and the two collections.
abbrev pub IsSold : Currency → LineBreakdown → Type 0
IsSold c l =
    IsNatural c l.breakdown.seller_net
    × IsNatural c l.breakdown.commission
    × IsNatural c l.breakdown.commission_gst
    × IsNatural c l.breakdown.tcs
    × IsNatural c l.breakdown.tds
    × (pos_part l.breakdown.buyer_total.minor
        ≡ pos_part l.breakdown.seller_net.minor
          + pos_part l.breakdown.commission.minor
          + pos_part l.breakdown.commission_gst.minor
          + pos_part l.breakdown.tcs.minor
          + pos_part l.breakdown.tds.minor)

abbrev pub paid_all : List LineBreakdown → ℕ
paid_all [] = 0
paid_all (l ∷ ls) = pos_part l.breakdown.buyer_total.minor + paid_all ls

-- Natural totals, and their sum.
abbrev AreTotals : Currency → Totals → ℕ → Type 0
AreTotals c t n =
    IsNatural c t.commission
    × IsNatural c t.commission_gst
    × IsNatural c t.tcs
    × IsNatural c t.tds
    × (pos_part t.commission.minor
          + pos_part t.commission_gst.minor
          + pos_part t.tcs.minor
          + pos_part t.tds.minor
        ≡ n)

add_totals-Ends :
    {c : Currency} {n : ℕ} (t : Totals) (l : LineBreakdown)
    → IsSold c l
    → AreTotals c t n
    → Ends
        (IsExpected ⊥)
        (λ u. AreTotals c u (
          n
          + (pos_part l.breakdown.commission.minor
              + pos_part l.breakdown.commission_gst.minor
              + pos_part l.breakdown.tcs.minor
              + pos_part l.breakdown.tds.minor)))
        (add_totals t l)
unfolding add_totals
add_totals-Ends t l (_, hc, hg, hs, hd, _) (tc, tg, ts, td, sum) =
    bind-Ends (wrap of_money (add t.commission l.breakdown.commission))
      (add-IsNatural (IsExpected ⊥) of_money tt t.commission l.breakdown.commission tc hc)
      λ a (na, ea).
        bind-Ends (wrap of_money (add t.commission_gst l.breakdown.commission_gst))
          (add-IsNatural (IsExpected ⊥) of_money tt t.commission_gst l.breakdown.commission_gst tg
            hg)
          λ b (nb, eb).
            bind-Ends (wrap of_money (add t.tcs l.breakdown.tcs))
              (add-IsNatural (IsExpected ⊥) of_money tt t.tcs l.breakdown.tcs ts hs)
              λ d (nd, ed).
                bind-Ends (wrap of_money (add t.tds l.breakdown.tds))
                  (add-IsNatural (IsExpected ⊥) of_money tt t.tds l.breakdown.tds td hd)
                  λ e (ne, ee). returns _ (na, nb, nd, ne, omega (arith, ea, eb, ed, ee, sum))

-- The lines so far and the totals account for n of the payment.
abbrev IsShared : Currency → (paid n : ℕ) → List Line × Totals → Type 0
IsShared c paid n (ls, t) = (k : ℕ) × (m : ℕ) × Sums c ls paid k × AreTotals c t m × (k + m ≡ n)

credit_sellers-Ends :
    {c : Currency} {paid : ℕ} (a : Accounts) (ls : List LineBreakdown) (n : ℕ)
    (d : List Line × Totals)
    → HasIds a
    → All (IsSold c) ls
    → IsShared c paid n d
    → Ends (IsExpected ⊥) (IsShared c paid (n + paid_all ls)) (credit_sellers a c ls d)
unfolding credit_sellers
credit_sellers-Ends a [] n (lines, t) ids h (k, m, hs, ht, e) =
    returns _ (k, m, hs, ht, omega (arith, e))
credit_sellers-Ends {c} {paid} a (l ∷ ls) n (lines, t) ids (hl, h) (k, m, hs, ht, e) =
    bind-Ends (seller_account a l.seller_id "payable" c) (seller_account-Ends ⊥ a _ _ _ ids)
      λ acct id. bind-Ends (add_totals t l) (add_totals-Ends t l hl ht) λ next hn.
        let bought = pos_part l.breakdown.buyer_total.minor in
        let assoc : n + (bought + paid_all ls) ≡ (n + bought) + paid_all ls = omega arith in
        rw assoc (
          credit_sellers-Ends a ls (n + bought) _ ids h (
            k + pos_part l.breakdown.seller_net.minor,
            _,
            credit_if-Sums acct l.breakdown.seller_net _ lines id hl.0 hs,
            hn,
            omega (arith, e, hl.5),
          ))

credit_totals-Sums :
    {c : Currency} {d k m : ℕ} (a b x y : ℕ) (t : Totals) (ls : List Line)
    → (a ≢ 0) × (b ≢ 0) × (x ≢ 0) × (y ≢ 0)
    → AreTotals c t m
    → Sums c ls d k
    → Sums c (credit_totals a b x y t ls) d (k + m)
credit_totals-Sums {k} {m} a b x y t ls (ha, hb, hx, hy) (tc, tg, ts, td, sum) hs =
    let (postings, ds, ks) = credit_if-Sums y t.tds _ _ hy td (
      credit_if-Sums x t.tcs _ _ hx ts (
        credit_if-Sums b t.commission_gst _ _ hb tg
          (credit_if-Sums a t.commission _ ls ha tc hs))) in
    (postings, ds, omega (arith, ks, sum))

no_totals-AreTotals : (c : Currency) → AreTotals c (no_totals c) 0
no_totals-AreTotals c =
    let zero : IsNatural c (zero_of c) = (refl, refl, (omega arith, omega arith)) in
    (zero, zero, zero, zero, omega arith)

one_side : (d : Direction) (a : ℕ) {n : ℕ} → 0 < debit_of d a + 0 → 0 < credit_of d a + 0 → 2 ≤ n
one_side debit a h k = ground arith
one_side credit a h k = ground arith
one_side (other _) a h k = ground arith

-- An entry with a positive sum on both sides has two lines.
both_sides : (ls : List Line) → 0 < debits ls → 0 < credits ls → 2 ≤ length ls
both_sides [] h k = ground arith
both_sides (l ∷ []) h k = one_side l.direction (pos_part l.amount.minor) h k
both_sides (l ∷ m ∷ ls) h k = omega arith

-- For an order with a public id and natural lines that each account for what the buyer pays, and a
-- grand total that is positive and the sum of what they charge, `postCaptureLedger` makes a capture
-- entry that `Validate` accepts, or fails because an account is missing or a total is no `int64`.
pub capture_entry-Ends :
    (a : Accounts) (provider : String) (o : Order) (payment : String) (now : ℤ)
    → HasIds a
    → is_empty o.public_id ≡ false
    → All (IsSold o.currency) o.lines
    → IsNatural o.currency o.grand_total
    → 0 < pos_part o.grand_total.minor
    → pos_part o.grand_total.minor ≡ paid_all o.lines
    → Ends (IsExpected ⊥) (λ e. validate e ≡ ok tt) (capture_entry a provider o payment now)
unfolding capture_entry
capture_entry-Ends a provider o payment now ids public hl (own, nat, inside) positive total =
    let c = o.currency in
    let paid = pos_part o.grand_total.minor in
    bind-Ends (account_by_code a (clearing_account_code provider)) (account_by_code-Ends ⊥ a _ ids)
      λ clearing h0.
        bind-Ends (account_by_code a "platform.income.commission") (account_by_code-Ends ⊥ a _ ids)
          λ commission h1.
            bind-Ends (account_by_code a "platform.payable.gst_output")
              (account_by_code-Ends ⊥ a _ ids)
              λ gst h2.
                bind-Ends (account_by_code a "platform.payable.tcs")
                  (account_by_code-Ends ⊥ a _ ids)
                  λ tcs h3.
                    bind-Ends (account_by_code a "platform.payable.tds_194o")
                      (account_by_code-Ends ⊥ a _ ids)
                      λ tds h4.
                        let first =
                          line_of debit clearing o.grand_total ("captured for order " ⧺ o.number) in
                        let posting : IsPosting c first =
                          (same_code_refl o.grand_total.cur c (sym own), positive, h0, tt) in
                        let start : IsShared c paid 0 (first ∷ [], no_totals c) = (
                          0,
                          0,
                          ((posting, tt), omega arith, refl),
                          no_totals-AreTotals c,
                          omega arith,
                        ) in
                        bind-Ends (credit_sellers a c o.lines (first ∷ [], no_totals c))
                          (credit_sellers-Ends a o.lines 0 (first ∷ [], no_totals c) ids hl start)
                          λ (lines, t) (k, m, hs, ht, sum).
                            let (postings, ds, ks) =
                              credit_totals-Sums commission gst tcs tds t lines (h1, h2, h3, h4) ht
                                hs in
                            let entry =
                              order_entry "order_capture" "Capture for order "
                                ("capture:" ⧺ (o.public_id ⧺ (":" ⧺ payment))) o now
                                (credit_totals commission gst tcs tds t lines) in
                            returns entry (
                              validate_complete entry
                                (
                                  refl,
                                  filled "C" "apture for order " _,
                                  refl,
                                  public,
                                  filled "c" "apture:" _,
                                )
                                (both_sides entry.lines (omega (arith, ds))
                                  (omega (arith, ks, sum)))
                                postings (omega (arith, ds, ks, sum)) (omega (arith, ds)))
