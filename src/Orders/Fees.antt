-- ===== src/Orders/Fees.antt =====
-- The processing cost of a capture, and the halves of the GST on a commission.
use Prim.Native.String.{String, ◌++◌ as ◌⧺◌}
use market_place.Prelude.{
  ℕ, ◌+◌, ◌-◌, ◌*◌, ◌≤◌, ◌<◌, ◌≡◌, ◌≢◌, refl, sym, ap, ℤ, pos, pos_part, neg_part, nat_abs, true,
  false, not, ◌&&◌, Option, none, some, length, All, ok, wrap, arith, ltb_ℤ, ◌==ℤ◌, min_int64,
  half_word, Bool-cases, inl, inr, ◌⊎◌, Ends, returns, bind-Ends, ◌-ℤ◌, sign_laws,
}
use market_place.Money.Types.{Money, Currency, zero_of, is_positive, down}
use market_place.Money.Arith.{add, sub, mul_ratio}
use market_place.Money.Exact.{fits, sign_of}
use market_place.Money.Round.{mul_div_round_exact}
use market_place.Money.Sums.{IsNatural, same_code_refl, sub_exact, IsInt64-fits}
use market_place.Ledger.Types.{Entry}
use market_place.Ledger.Post.{is_empty, validate}
use market_place.Ledger.Sound.{debits, credits, IsPosting, validate_complete}
use market_place.Orders.Types.{Order, of_money, Accounts, account_by_code}
use market_place.Orders.Amounts.{add-IsNatural}
use market_place.Orders.Entries.{IsExpected, HasIds, filled, account_by_code-Ends}
use market_place.Orders.Capture.{
  order_entry, fee_lines, fee_entry, ordered, halves, split_commission_gst,
}

-- An entry is made just when there is something to book, and is accepted.
abbrev pub IsAccepted : (fee tax : Money) → Option Entry → Type 0
IsAccepted fee tax none = (fee.minor ≡ pos 0) × (tax.minor ≡ pos 0)
IsAccepted fee tax (some e) = (0 < pos_part fee.minor + pos_part tax.minor) × (validate e ≡ ok tt)

natural_zero : {c : Currency} (m : Money) → IsNatural c m → is_positive m ≡ false → m.minor ≡ pos 0
natural_zero m (own, nat, inside) e =
    let none : pos_part m.minor ≡ 0 = ground arith in omega sign_laws

-- The lines of the processing cost may be posted, and balance.
fee_lines_lem :
    {c : Currency} (x y z : ℕ) (fee tax total : Money)
    → (x ≢ 0) × (y ≢ 0) × (z ≢ 0)
    → IsNatural c fee
    → IsNatural c tax
    → IsNatural c total
    → pos_part total.minor ≡ pos_part fee.minor + pos_part tax.minor
    → 0 < pos_part total.minor
    → let ls = fee_lines x y z fee tax total in
      (2 ≤ length ls) × All (IsPosting c) ls × (debits ls ≡ credits ls) × (debits ls < half_word)
unfolding fee_lines
fee_lines_lem {c} x y z fee tax total (hx, hy, hz) (cf, nf, jf) (ct, nt, jt) (co, nto, jo) sum
      positive =
    let own = same_code_refl total.cur c (sym co) in
    let own_fee = same_code_refl fee.cur c (sym cf) in
    let own_tax = same_code_refl tax.cur c (sym ct) in
    elim (Bool-cases (is_positive fee)) [
      | inl a ↦ elim (Bool-cases (is_positive tax)) [
        | inl b ↦
            rw (a, b)
              (
                omega arith,
                (
                  (own_fee, ground arith, hx, tt),
                  ((own_tax, ground arith, hy, tt), ((own, positive, hz, tt), tt)),
                ),
                omega (arith, sum),
                omega (arith, sum),
              )
        | inr b ↦
            rw (a, b)
              (
                omega arith,
                ((own_fee, ground arith, hx, tt), ((own, positive, hz, tt), tt)),
                ground arith,
                ground arith,
              )
      ]
      | inr a ↦ elim (Bool-cases (is_positive tax)) [
        | inl b ↦
            rw (a, b)
              (
                omega arith,
                ((own_tax, ground arith, hy, tt), ((own, positive, hz, tt), tt)),
                ground arith,
                ground arith,
              )
        | inr b ↦ absurd (ground arith)
      ]
    ]

-- For natural amounts in the order's currency, an order with a public id, and accounts with ids, the
-- second entry of `postCaptureLedger` is left out if the fee and its tax are 0, and is else one that
-- `Validate` accepts; or an account is missing, or the total is no `int64`.
pub fee_entry-Ends :
    (a : Accounts) (provider : String) (o : Order) (payment : String) (now : ℤ) (clearing : ℕ)
    (fee tax : Money)
    → HasIds a
    → is_empty o.public_id ≡ false
    → clearing ≢ 0
    → IsNatural o.currency fee
    → IsNatural o.currency tax
    → Ends (IsExpected ⊥) (IsAccepted fee tax) (fee_entry a provider o payment now clearing fee tax)
unfolding fee_entry
fee_entry-Ends a provider o payment now clearing fee tax ids public hc hf ht =
    elim (Bool-cases (not (is_positive fee) && not (is_positive tax))) [
      | inl free ↦
          rw free
            (returns none (natural_zero fee hf (ground arith), natural_zero tax ht (ground arith)))
      | inr due ↦ rw due (
          bind-Ends (account_by_code a "platform.expense.psp_fee") (account_by_code-Ends ⊥ a _ ids)
            λ x hx.
              bind-Ends (account_by_code a "platform.input_credit.gst")
                (account_by_code-Ends ⊥ a _ ids)
                λ y hy.
                  bind-Ends (wrap of_money (add fee tax))
                    (add-IsNatural (IsExpected ⊥) of_money tt fee tax hf ht)
                    λ total (hn, sum).
                      let (two, postings, balanced, fit) =
                        fee_lines_lem x y clearing fee tax total (hx, hy, hc) hf ht hn sum
                          (ground arith) in
                      returns _ (
                        ground arith,
                        validate_complete
                            (order_entry "psp_fee" "Processing fee for order "
                              ("psp_fee:" ⧺ (o.public_id ⧺ (":" ⧺ payment))) o now
                              (fee_lines x y clearing fee tax total))
                            (
                              refl,
                              filled "P" "rocessing fee for order " _,
                              refl,
                              public,
                              filled "p" "sp_fee:" _,
                            )
                            two postings balanced fit,
                      ))
    ]

-- The halves of an amount: the first is the larger by one unit at most, and together they make it.
abbrev pub AreHalves : Money → Money × Money × Money → Type 0
AreHalves gst (cgst, sgst, igst) =
    (pos_part cgst.minor + pos_part sgst.minor ≡ pos_part gst.minor)
    × (pos_part sgst.minor ≤ pos_part cgst.minor)
    × (pos_part cgst.minor ≤ pos_part sgst.minor + 1)
    × (igst ≡ zero_of gst.cur)

half_lem :
    {c : Currency} (gst : Money)
    → IsNatural c gst
    → (x : ℕ) × (2 * x ≤ pos_part gst.minor)
      × (pos_part gst.minor < 2 * x + 2)
      × (mul_ratio gst (pos 1) (pos 2) down ≡ ok (record { minor = pos x; cur = gst.cur }))
unfolding mul_ratio
half_lem gst (own, nat, inside) =
    let (x, (le, lt), e) =
      mul_div_round_exact gst.minor (pos 1) (pos 2) down inside (omega arith, omega arith)
        (omega arith) (omega arith) tt in
    let sign : sign_of gst.minor (pos 1) (pos 2) ≡ false = ground arith in
    let size : nat_abs gst.minor * 1 ≡ pos_part gst.minor = omega arith in
    let le' : 2 * x ≤ pos_part gst.minor = rw size at le in
    let fit : fits (pos x) ≡ true = IsInt64-fits (pos x) (omega arith, omega arith) in
    (x, le', rw size at lt, rw (e, sign, fit) refl)

ordered_lem :
    (gst : Money) (x y : ℕ)
    → x + y ≡ pos_part gst.minor
    → x ≤ y
    → y ≤ x + 1
    → AreHalves gst (
        ordered
          (record { minor = pos x; cur = gst.cur })
          (record { minor = pos y; cur = gst.cur })
          (zero_of gst.cur))
ordered_lem gst x y sum le step = elim (Bool-cases (ltb_ℤ (pos x) (pos y))) [
  | inl less ↦ rw less (omega (arith, sum), le, step, refl)
  | inr same ↦
      let equal : y ≡ x = ground arith in
      rw same (sum, omega (arith, equal), omega (arith, equal), refl)
]

halves_lem :
    {c : Currency} (gst : Money)
    → IsNatural c gst
    → AreHalves gst (halves gst (mul_ratio gst (pos 1) (pos 2) down))
halves_lem gst (own, nat, inside) =
    let (x, le, lt, e) = half_lem gst (own, nat, inside) in
    let half : Money = record { minor = pos x; cur = gst.cur } in
    let more : (pos x ==ℤ min_int64) ≡ false = ground arith in
    let value : gst.minor -ℤ pos x ≡ pos (pos_part gst.minor - x) = omega sign_laws in
    let fit : fits (pos (pos_part gst.minor - x)) ≡ true =
      IsInt64-fits (pos (pos_part gst.minor - x)) (omega arith, omega arith) in
    let rest : sub gst half ≡ ok (record { minor = pos (pos_part gst.minor - x); cur = gst.cur }) =
      rw
        (
          sub_exact gst half inside (omega arith, omega arith),
          same_code_refl gst.cur gst.cur refl,
          more,
          value,
          fit,
        )
        refl in
    rw (e, rest, halves)
      (ordered_lem gst x (pos_part gst.minor - x) (omega arith) (omega arith) (omega arith))

same_state : (a b : ℤ) → (a ==ℤ b) ≡ true → a ≡ b
same_state a b h =
    let parts : pos_part a + neg_part b ≡ pos_part b + neg_part a = ground arith in omega sign_laws

other_state : (a b : ℤ) → (a ==ℤ b) ≡ false → some a ≢ some b
other_state a b h e = let same : a ≡ b = cc in ground (arith, ap pos_part same, ap neg_part same)

-- For a natural amount of GST on the commission, `splitCommissionGST` gives CGST and SGST that make
-- the amount, CGST the larger by one unit at most, and no IGST, if the seller's state is known and is
-- the platform's; else it gives the whole amount as IGST and no CGST or SGST.
split_commission_gst_lem :
    {c : Currency} (gst : Money) (platform : ℤ) (seller : Option ℤ)
    → IsNatural c gst
    → ((seller ≡ some platform) × AreHalves gst (split_commission_gst gst platform seller))
      ⊎ ((seller ≢ some platform)
          × (split_commission_gst gst platform seller ≡ (zero_of gst.cur, zero_of gst.cur, gst)))
unfolding split_commission_gst
split_commission_gst_lem gst platform none h = inr (λ e. cc, refl)
split_commission_gst_lem gst platform (some s) h = elim (Bool-cases (s ==ℤ platform)) [
  | inl same ↦ rw same (inl (ap some (same_state s platform same), halves_lem gst h))
  | inr other ↦ rw other (inr (other_state s platform other, refl))
]
