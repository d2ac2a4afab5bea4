-- ===== src/Provenance/Container/Scan.antt =====
-- A walk over an index that only goes up: the shape of the loops over chunks and boxes.
use market_place.Prelude.{ℕ, zero, suc, ◌+◌, ◌<◌, ◌≤◌, ◌≡◌, refl, subst, Option, none, some, arith}

-- What one round of a loop does: it leaves the loop, goes on at a further index, or returns.
pub data Step (A : Type 0) : Type 0 where
  stop : Step A
  next : ℕ → Step A
  found : A → Step A

-- The loop from index i, for at most so many rounds; `none` when they do not suffice.
unfoldable pub search : {A : Type 0} → (ℕ → Step A) → (rounds i : ℕ) → Option (Option A)
search step zero i = none
search step (suc n) i = elim (step i) [
  | stop ↦ some none
  | next j ↦ search step n j
  | found a ↦ some (some a)
]

-- Every round goes up, and not past the end.
unfoldable pub GoesUp : {A : Type 0} → (ℕ → Step A) → (last : ℕ) → Type 0
GoesUp step last = (i j : ℕ) → i ≤ last → step i ≡ next j → (i < j) × (j ≤ last)

-- One round more than there are indices left is enough, and what is found is what a round found.
pub search_total :
    {A : Type 0} (Q : A → Type 0) (step : ℕ → Step A) (last rounds i : ℕ)
    → GoesUp step last
    → ((i : ℕ) (a : A) → i ≤ last → step i ≡ found a → Q a)
    → i ≤ last
    → last < rounds + i
    → (r : Option A) × (search step rounds i ≡ some r) × ((a : A) → r ≡ some a → Q a)
unfolding search GoesUp
search_total Q step last zero i up holds in_bounds enough = absurd (omega arith)
search_total {A} Q step last (suc n) i up holds in_bounds enough =
    elim (step i)
        as (λ s.
          step i ≡ s
          → (r : Option A) × (elim s [
            | stop ↦ some none
            | next j ↦ search step n j
            | found a ↦ some (some a)
          ]
              ≡ some r)
            × ((a : A) → r ≡ some a → Q a)) [
              | stop ↦ λ e. (none, refl, λ a e'. absurd (cc))
              | next j ↦ λ e.
                  let (above, within) = up i j in_bounds e in
                  search_total Q step last n j up holds within (omega arith)
              | found a ↦ λ e. (
                some a,
                refl,
                λ a' e'. let same : a ≡ a' = cc in subst Q same (holds i a in_bounds e),
              )
            ]
      refl
