-- ===== src/Ranking/Sorting.antt =====
-- `Order` of internal/modules/ranking/ranking.go, and the comparison that it sorts by.
use market_place.Prelude.{
  ℕ, ◌≡◌, refl, Bool, true, false, not, if◌then◌else◌, ltb, ◌==◌, List, [], ◌∷◌, map, arith,
}
use market_place.Bytes.{Bytes}
use market_place.Ranking.Formula.{Scored, shuffle_key}

-- `<` on strings.
abbrev pub before : Bytes → Bytes → Bool
before bs [] = false
before [] (y ∷ ys) = true
before (x ∷ xs) (y ∷ ys) = if x == y then before xs ys else ltb x y

-- The comparison of `Order`: by band, from above; then by the shuffle key, then by the id.
unfoldable pub precedes : Scored → Scored → Bool
precedes a b =
    if not (a.band == b.band)
    then ltb (b.band) (a.band)
    else if not (a.shuffle == b.shuffle)
    then ltb (a.shuffle) (b.shuffle)
    else before (a.product) (b.product)

-- One step of a stable sort: a result goes before those that do not precede it.
unfoldable pub insert : Scored → List Scored → List Scored
insert x [] = x ∷ []
insert x (y ∷ ys) = let rest = insert x ys in if precedes y x then (y ∷ rest) else (x ∷ (y ∷ ys))

-- `sort.SliceStable`, which this comparison determines.
unfoldable pub sort_stable : List Scored → List Scored
sort_stable [] = []
sort_stable (x ∷ xs) = insert x (sort_stable xs)

unfoldable pub with_key : (seed : ℕ) → Scored → Scored
with_key seed r = record {
  product = r.product;
  seller = r.seller;
  recency_score = r.recency_score;
  gate_passed = r.gate_passed;
  gate_failures = r.gate_failures;
  exposure_rank = r.exposure_rank;
  factor_bps = r.factor_bps;
  band = r.band;
  final_score = r.final_score;
  shuffle = shuffle_key seed (r.product);
}

-- `Order`
unfoldable pub order : List Scored → (seed : ℕ) → List Scored
order results seed = sort_stable (map (λ r. with_key seed r) results)

before_asym : (xs ys : Bytes) → before xs ys ≡ true → before ys xs ≡ false
before_asym [] [] e = absurd (cc)
before_asym [] (y ∷ ys) e = refl
before_asym (x ∷ xs) [] e = absurd (cc)
before_asym (x ∷ xs) (y ∷ ys) e = ground (arith, before_asym xs ys)

before_trans : (xs ys zs : Bytes) → before xs ys ≡ true → before ys zs ≡ true → before xs zs ≡ true
before_trans xs [] zs e f = absurd (cc)
before_trans [] (y ∷ ys) [] e f = absurd (cc)
before_trans (x ∷ xs) (y ∷ ys) [] e f = absurd (cc)
before_trans [] (y ∷ ys) (z ∷ zs) e f = refl
before_trans (x ∷ xs) (y ∷ ys) (z ∷ zs) e f = ground (arith, before_trans xs ys zs)

before_total : (xs ys : Bytes) → before xs ys ≡ false → before ys xs ≡ false → xs ≡ ys
before_total [] [] e f = refl
before_total [] (y ∷ ys) e f = absurd (cc)
before_total (x ∷ xs) [] e f = absurd (cc)
before_total (x ∷ xs) (y ∷ ys) e f = grind (arith, before_total xs ys)

pub precedes_asym : (a b : Scored) → precedes a b ≡ true → precedes b a ≡ false
unfolding precedes
precedes_asym a b e = ground (arith, before_asym (a.product) (b.product))

pub precedes_trans :
    (a b c : Scored) → precedes a b ≡ true → precedes b c ≡ true → precedes a c ≡ true
unfolding precedes
precedes_trans a b c e f = ground (arith, before_trans (a.product) (b.product) (c.product))

pub precedes_total :
    (a b : Scored) → precedes a b ≡ false → precedes b a ≡ false → a.product ≡ b.product
unfolding precedes
precedes_total a b e f = ground (arith, before_total (a.product) (b.product))
