-- ===== src/Money/Split.antt =====
-- `Allocate` of internal/platform/money/money.go: an amount split by weights.
use market_place.Prelude.{
  ℕ, zero, suc, ◌+◌, ℤ, pos, negsuc, pos_part, Option, none, some, List, [], ◌∷◌, set,
  if◌then◌else◌, ltb_ℤ, ◌==ℤ◌, Result, ok, err, ◌>>=◌, ◌>>◌, refuse_if, add64, sub64, neg64,
  max_int64,
}
use market_place.Money.Types.{
  MoneyError, overflow, divide_by_zero, no_weights, negative_weight, Money,
}
use market_place.Money.Wide.{mul_div_rem}

-- The first loop: the sum of the weights.
unfoldable pub weigh : ℤ → List ℤ → Result MoneyError ℤ
weigh total [] = ok total
weigh total (w ∷ ws) = do
  refuse_if (ltb_ℤ w (pos 0)) negative_weight
  refuse_if (ltb_ℤ (sub64 max_int64 w) total) overflow
  weigh (add64 total w) ws

-- The second loop: the truncated shares, their remainders, and what has been allocated.
unfoldable pub apportion :
    Money → (total : ℤ) → List ℤ → (allocated : ℤ) → Result MoneyError (List Money × List ℤ × ℤ)
apportion m total [] allocated = ok ([], [], allocated)
apportion m total (w ∷ ws) allocated = do
  (q, r) ← mul_div_rem m.minor w total
  (parts, remainders, done) ← apportion m total ws (add64 allocated q)
  ok (record { minor = q; cur = m.cur } ∷ parts, r ∷ remainders, done)

-- The inner loop: the first bucket whose remainder is above every earlier one and above -1.
unfoldable pub largest : List ℤ → (i : ℕ) → Option ℕ → (best_rem : ℤ) → Option ℕ
largest [] i best best_rem = best
largest (r ∷ rs) i best best_rem =
    let later = ltb_ℤ best_rem r in
    largest rs (i + 1) (if later then some i else best) (if later then r else best_rem)

-- `if best < 0 { best = 0 }`
abbrev pub or_first : Option ℕ → ℕ
or_first none = 0
or_first (some i) = i

-- `parts[best].minor += step`
unfoldable pub bump_at : List Money → ℕ → ℤ → List Money
bump_at [] i step = []
bump_at (p ∷ ps) zero step = record p { minor = add64 p.minor step } ∷ ps
bump_at (p ∷ ps) (suc i) step = p ∷ bump_at ps i step

-- The last loop: `left` units, one to a bucket.
unfoldable pub spread : (left : ℕ) (step : ℤ) → List Money → List ℤ → List Money
unfolding bump_at largest
spread zero step parts remainders = parts
spread (suc left) step parts remainders =
    let best = or_first (largest remainders 0 none (negsuc 0)) in
    spread left step (bump_at parts best step) (set remainders best (negsuc 0))

-- `Allocate`
unfoldable pub allocate : Money → List ℤ → Result MoneyError (List Money)
allocate m [] = err no_weights
allocate m (w ∷ ws) = do
  total ← weigh (pos 0) (w ∷ ws)
  refuse_if (total ==ℤ pos 0) divide_by_zero
  (parts, remainders, allocated) ← apportion m total (w ∷ ws) (pos 0)
  let left = sub64 m.minor allocated
  ok (
      if ltb_ℤ left (pos 0)
      then spread (pos_part (neg64 left)) (negsuc 0) parts remainders
      else spread (pos_part left) (pos 1) parts remainders)
