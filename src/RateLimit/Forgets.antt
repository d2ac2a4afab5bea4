-- ===== src/RateLimit/Forgets.antt =====
-- That sweeping the limiter of internal/platform/ratelimit/ratelimit.go forgets nothing that counts.
use market_place.Prelude.{
  ℕ, ◌+◌, ◌≤◌, ◌≡◌, refl, ap, ◌∙◌, inl, inr, Bool-cases, true, ltb, Option, none, some, List, [],
  ◌∷◌, arith,
}
use market_place.Bytes.{Bytes}
use market_place.RateLimit.Limiter.{
  Rule, Decision, Local, is_at, find, put, sweep, start, allow_n, allow_with, arrival, decide_at,
  shard_of, entry_key,
}
use market_place.RateLimit.Table.{
  same_place, IsMap, find-put, find-sweep-none, alone, put-IsMap, sweep-IsMap,
}

-- Places count the same from a time on.
abbrev pub Alike : (now : ℕ) → (t u : Local) → Type 0
Alike now t u =
    (s : ℕ) (k : Bytes) (later : ℕ)
    → now ≤ later
    → start later (find s k t) ≡ start later (find s k u)

pub sweep-Alike : (now : ℕ) (t : Local) → IsMap t → Alike now (sweep now t) t
unfolding IsMap find sweep start
sweep-Alike now [] m s k later le = refl
sweep-Alike now (e ∷ es) (missing, m) s k later le = elim (Bool-cases (ltb (e.tat) now)) [
  | inl past ↦ elim (Bool-cases (is_at s k e)) [
    | inl here ↦
        let gone : find s k (sweep now es) ≡ none =
          find-sweep-none s k now es (alone s k e es missing here) in
        let still : ltb (e.tat) later ≡ true = ground (arith, past) in
        rw (past, here, gone, still) refl
    | inr other ↦ rw (past, other) (sweep-Alike now es m s k later le)
  ]
  | inr kept ↦ elim (Bool-cases (is_at s k e)) [
    | inl here ↦ rw (kept, here) refl
    | inr other ↦ rw (kept, other) (sweep-Alike now es m s k later le)
  ]
]

put-Alike :
    (now later : ℕ) (s : ℕ) (k : Bytes) (tat : ℕ) (t u : Local)
    → now ≤ later
    → Alike now t u
    → Alike later (put s k tat t) (put s k tat u)
put-Alike now later s k tat t u le alike s' k' even_later le' =
    rw (find-put s k s' k' tat t, find-put s k s' k' tat u)
      (elim (Bool-cases (same_place s k s' k')) [
        | inl same ↦ rw (same) refl
        | inr apart ↦ rw (apart) (alike s' k' even_later (omega arith))
      ])

-- The same answer from two states, and states that count the same afterwards.
data SameAnswer (now : ℕ) : (r q : Option (Decision × Local)) → Type 0 where
  panics : SameAnswer now none none
  answers :
      (d : Decision) (t u : Local)
      → IsMap t
      → Alike now t u
      → SameAnswer now (some (d, t)) (some (d, u))

allow_with-SameAnswer :
    (now new_tat : ℕ) (t u : Local) (o : Option ℕ)
    → IsMap t
    → Alike now t u
    → SameAnswer now (allow_with now new_tat t o) (allow_with now new_tat u o)
allow_with-SameAnswer now new_tat t u none m alike = panics
allow_with-SameAnswer now new_tat t u (some remaining) m alike = answers _ t u m alike

decide_at-SameAnswer :
    (s : ℕ) (k : Bytes) (now : ℕ) (rule : Rule) (n tat : ℕ) (t u : Local)
    → IsMap t
    → Alike now t u
    → SameAnswer now (decide_at s k now rule n tat t) (decide_at s k now rule n tat u)
unfolding decide_at
decide_at-SameAnswer s k now rule n tat t u m alike =
    let new_tat = arrival rule n tat in
    elim (Bool-cases (ltb (now + rule.period) new_tat)) [
      | inl refused ↦ rw (refused) (answers _ t u m alike)
      | inr passes ↦ rw (passes) (
          allow_with-SameAnswer now new_tat (put s k new_tat t) (put s k new_tat u) _
            (put-IsMap s k new_tat t m) (put-Alike now now s k new_tat t u (omega arith) alike))
    ]

-- What the limiter is asked, at a time: a request, or a sweep.
pub data Event : Type 0 where
  request : (now : ℕ) → (key : Bytes) → Rule → (n : ℕ) → Event
  sweep_at : (now : ℕ) → Event

abbrev pub time : Event → ℕ
time (request now key rule n) = now
time (sweep_at now) = now

-- The clock goes on.
abbrev pub InOrder : ℕ → List Event → Type 0
InOrder now [] = Unit
InOrder now (e ∷ es) = (now ≤ time e) × InOrder (time e) es

abbrev pub requests : List Event → List Event
requests [] = []
requests (request now key rule n ∷ es) = request now key rule n ∷ requests es
requests (sweep_at now ∷ es) = requests es

abbrev prepend : Decision → Option (List Decision) → Option (List Decision)
prepend d none = none
prepend d (some ds) = some (d ∷ ds)

-- What follows a request; a panic ends it all.
abbrev continue :
    Option (Decision × Local) → (Local → Option (List Decision)) → Option (List Decision)
continue none rest = none
continue (some (d, t)) rest = prepend d (rest t)

continue-SameAnswer :
    (now : ℕ) (r q : Option (Decision × Local)) (f g : Local → Option (List Decision))
    → SameAnswer now r q
    → ((t u : Local) → IsMap t → Alike now t u → f t ≡ g u)
    → continue r f ≡ continue q g
continue-SameAnswer now _ _ f g panics same = refl
continue-SameAnswer now _ _ f g (answers d t u m alike) same =
    ap (λ o. prepend d o) (same t u m alike)

module _ (hash : Bytes → ℕ) where
  -- The decisions on the requests, up to the end or to a panic.
  unfoldable pub decisions : List Event → Local → Option (List Decision)
  decisions [] t = some []
  decisions (request now key rule n ∷ es) t =
      continue (allow_n hash now key rule n t) (λ u. decisions es u)
  decisions (sweep_at now ∷ es) t = decisions es (sweep now t)

  forgets :
      (now : ℕ) (es : List Event) (t u : Local)
      → IsMap t
      → Alike now t u
      → InOrder now es
      → decisions es t ≡ decisions (requests es) u
  unfolding decisions allow_n
  forgets now [] t u m alike order = refl
  forgets now (request later key rule n ∷ es) t u m alike (le, order) =
      let s = shard_of hash key rule in
      let k = entry_key key rule in
      let since = start later (find s k u) in
      rw (alike s k later le) (
        continue-SameAnswer later (decide_at s k later rule n since t)
          (decide_at s k later rule n since u) _ _
          (decide_at-SameAnswer s k later rule n since t u m
            (λ s k even_later le'. alike s k even_later (omega arith)))
          (λ t u m alike. forgets later es t u m alike order))
  forgets now (sweep_at later ∷ es) t u m alike (le, order) =
      forgets later es (sweep later t) u (sweep-IsMap later t m)
        (λ s k even_later le'.
          sweep-Alike later t m s k even_later le' ∙ alike s k even_later (omega arith))
        order

  -- Sweeps change no decision: the requests, in the order of the clock and with sweeps between them,
  -- get the decisions that they get without the sweeps.
  pub decisions-requests :
      (now : ℕ) (es : List Event) (t : Local)
      → IsMap t
      → InOrder now es
      → decisions es t ≡ decisions (requests es) t
  decisions-requests now es t m order = forgets now es t t m (λ s k later le. refl) order
