-- ===== src/RateLimit/Table.antt =====
-- The limiter's map of internal/platform/ratelimit/ratelimit.go: what a write and a sweep leave in it.
use market_place.Prelude.{
  ℕ, ◌≡◌, refl, ◌∙◌, inl, inr, Bool-cases, both_true, if_elim, Bool, true, false, ◌&&◌,
  if◌then◌else◌, ltb, ◌==◌, ==_iff, Option, none, some, [], ◌∷◌, arith,
}
use market_place.Bytes.{Bytes, equal, equal_sound, equal_refl}
use market_place.RateLimit.Limiter.{Entry, Local, is_at, find, put, sweep}

-- The same place in the shards' maps.
abbrev pub same_place : (s : ℕ) (k : Bytes) (s' : ℕ) (k' : Bytes) → Bool
same_place s k s' k' = (s == s') && equal k k'

pub is_at_sound : (s : ℕ) (k : Bytes) (e : Entry) → is_at s k e ≡ true → (e.shard ≡ s) × (e.key ≡ k)
is_at_sound s k e here =
    let (shard, key) = both_true (e.shard == s) (equal (e.key) k) here in
    ((==_iff (e.shard) s).0 shard, equal_sound (e.key) k key)

pub is_at-same :
    (s : ℕ) (k : Bytes) (s' : ℕ) (k' : Bytes) (e : Entry)
    → is_at s k e ≡ true
    → is_at s' k' e ≡ same_place s k s' k'
is_at-same s k s' k' e here = let (shard, key) = is_at_sound s k e here in rw (shard, key) refl

is_at-other :
    (s : ℕ) (k : Bytes) (s' : ℕ) (k' : Bytes) (e : Entry)
    → is_at s k e ≡ false
    → is_at s' k' e ≡ true
    → same_place s k s' k' ≡ false
is_at-other s k s' k' e other here = elim (Bool-cases (same_place s k s' k')) [
  | inr apart ↦ apart
  | inl same ↦
      let (shard, key) = both_true (s == s') (equal k k') same in
      let bad : is_at s k e ≡ true = rw ((==_iff s s').0 shard, equal_sound k k' key) here in
      absurd (cc)
]

pub same_place_refl : (s : ℕ) (k : Bytes) → same_place s k s k ≡ true
same_place_refl s k = ground (arith, equal_refl k)

apart_from_entry :
    (s : ℕ) (k : Bytes) (e : Entry) → is_at s k e ≡ false → same_place s k (e.shard) (e.key) ≡ false
apart_from_entry s k e other = elim (Bool-cases (same_place s k (e.shard) (e.key))) [
  | inr apart ↦ apart
  | inl same ↦ absurd (
      let (shard, key) = both_true (s == e.shard) (equal k (e.key)) same in
      let back : is_at (e.shard) (e.key) e ≡ true = ground (arith, equal_refl (e.key)) in
      let bad : is_at s k e ≡ true =
        rw ((==_iff s (e.shard)).0 shard, equal_sound k (e.key) key) back in
      cc)
]

-- What is found after a write: the time written, or what was there before.
pub find-put :
    (s : ℕ) (k : Bytes) (s' : ℕ) (k' : Bytes) (tat : ℕ) (t : Local)
    → find s' k' (put s k tat t) ≡ (if same_place s k s' k' then some tat else find s' k' t)
unfolding find put
find-put s k s' k' tat [] = refl
find-put s k s' k' tat (e ∷ es) = elim (Bool-cases (is_at s k e)) [
  | inl here ↦
      rw (here, is_at-same s k s' k' e here) (repeated (same_place s k s' k') tat (find s' k' es))
  | inr other ↦ elim (Bool-cases (is_at s' k' e)) [
    | inl there ↦ rw (other, there, is_at-other s k s' k' e other there) refl
    | inr nor ↦ rw (other, nor) (find-put s k s' k' tat es)
  ]
]
  where
    repeated :
        (b : Bool) (tat : ℕ) (rest : Option ℕ)
        → (if b then some tat else rest)
          ≡ (if b then some tat else (if b then some (e.tat) else rest))
    repeated true tat rest = refl
    repeated false tat rest = refl

-- No two entries are at one place, as in a map.
unfoldable pub IsMap : Local → Type 0
IsMap [] = Unit
IsMap (e ∷ es) = (find (e.shard) (e.key) es ≡ none) × IsMap es

pub find-sweep-none :
    (s : ℕ) (k : Bytes) (now : ℕ) (t : Local) → find s k t ≡ none → find s k (sweep now t) ≡ none
unfolding find sweep
find-sweep-none s k now [] e = refl
find-sweep-none s k now (x ∷ t) e = ground (arith, find-sweep-none s k now t)

-- At an entry's place nothing else is found.
pub alone :
    (s : ℕ) (k : Bytes) (e : Entry) (t : Local)
    → find (e.shard) (e.key) t ≡ none
    → is_at s k e ≡ true
    → find s k t ≡ none
alone s k e t missing here =
    let (shard, key) = is_at_sound s k e here in rw (← shard, ← key) missing

pub put-IsMap : (s : ℕ) (k : Bytes) (tat : ℕ) (t : Local) → IsMap t → IsMap (put s k tat t)
unfolding put IsMap find
put-IsMap s k tat [] m = (refl, tt)
put-IsMap s k tat (e ∷ es) (missing, m) = elim (Bool-cases (is_at s k e)) [
  | inl here ↦ rw (here) (alone s k e es missing here, m)
  | inr other ↦ rw (other) (
    find-put s k (e.shard) (e.key) tat es ∙ rw (apart_from_entry s k e other) missing,
    put-IsMap s k tat es m,
  )
]

pub sweep-IsMap : (now : ℕ) (t : Local) → IsMap t → IsMap (sweep now t)
unfolding sweep IsMap
sweep-IsMap now [] m = tt
sweep-IsMap now (e ∷ es) (missing, m) =
    if_elim IsMap (ltb (e.tat) now) (λ _. sweep-IsMap now es m)
      (λ _. (find-sweep-none (e.shard) (e.key) now es missing, sweep-IsMap now es m))
