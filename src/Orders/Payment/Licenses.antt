-- ===== src/Orders/Payment/Licenses.antt =====
-- `issueLicenses` of internal/modules/orders/confirm.go: every line has a licence behind it.
use market_place.Prelude.{ℕ, ◌≡◌, true, List, [], ◌∷◌, All, arith}
use market_place.Orders.Types.{LineBreakdown}
use market_place.Orders.Payment.Handler.{License, has_license, issue_one, issue_licenses}

-- Every line has a licence.
abbrev pub Licensed : List LineBreakdown → List License → Type 0
Licensed lines ls = All (λ l. has_license (l.item_id) ls ≡ true) lines

-- A licence stays, whatever is issued besides.
one-keeps :
    (item buyer : ℕ) (l : LineBreakdown) (ls : List License)
    → has_license item ls ≡ true
    → has_license item (issue_one buyer l ls) ≡ true
unfolding issue_one has_license
one-keeps item buyer l ls h = ground (arith, h)

one-has :
    (buyer : ℕ) (l : LineBreakdown) (ls : List License)
    → has_license (l.item_id) (issue_one buyer l ls) ≡ true
unfolding issue_one has_license
one-has buyer l ls = ground arith

issue-keeps :
    (item buyer : ℕ) (lines : List LineBreakdown) (ls : List License)
    → has_license item ls ≡ true
    → has_license item (issue_licenses buyer lines ls) ≡ true
unfolding issue_licenses
issue-keeps item buyer [] ls h = h
issue-keeps item buyer (l ∷ lines) ls h =
    issue-keeps item buyer lines (issue_one buyer l ls) (one-keeps item buyer l ls h)

pub issue_licenses-Licensed :
    (buyer : ℕ) (lines : List LineBreakdown) (ls : List License)
    → Licensed lines (issue_licenses buyer lines ls)
unfolding issue_licenses
issue_licenses-Licensed buyer [] ls = tt
issue_licenses-Licensed buyer (l ∷ lines) ls =
    let more = issue_one buyer l ls in
    (
      issue-keeps (l.item_id) buyer lines more (one-has buyer l ls),
      issue_licenses-Licensed buyer lines more,
    )
