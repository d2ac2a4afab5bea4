-- ===== src/RateLimit/Bound.antt =====
-- How much the limiter of internal/platform/ratelimit/ratelimit.go grants to a client in a span of time.
use market_place.Prelude.{
  ℕ, ◌+◌, ◌-◌, ◌*◌, ◌<◌, ◌≤◌, ◌≡◌, ◌⊎◌, refl, inl, inr, if◌then◌else◌, Option, none, some, List, [],
  ◌∷◌, All, half_word, arith,
}
use market_place.Bytes.{Bytes}
use market_place.RateLimit.Limiter.{
  arrival, Rule, Decision, Local, find, put, start, allow_n, emission_interval, at_least_one,
  shard_of, entry_key,
}
use market_place.RateLimit.Table.{find-put, same_place_refl}
use market_place.RateLimit.Rate.{
  arrival-exact, Answer, refused, granted, decide_at-Answer, start_later, start_now,
}

-- The units that an answer grants, and what follows.
abbrev credit : Option (Decision × Local) → (n : ℕ) → (Local → ℕ) → ℕ
credit none n rest = 0
credit (some (d, t)) n rest = (if d.allowed then at_least_one n else 0) + rest t

-- Requests of one client under one rule: the time of each, and its units.
abbrev pub Requests : Type 0
Requests = List (ℕ × ℕ)

-- The clock goes on, up to a last time.
abbrev pub Between : (now last : ℕ) → Requests → Type 0
Between now last [] = now ≤ last
Between now last ((time, n) ∷ rs) = (now ≤ time) × Between time last rs

-- The cost of each request is an `int64`.
abbrev pub Affordable : Rule → Requests → Type 0
Affordable rule rs = All (λ r. at_least_one (r.1) * emission_interval rule < half_word) rs

Between-le : (now last : ℕ) (rs : Requests) → Between now last rs → now ≤ last
Between-le now last [] h = h
Between-le now last ((time, n) ∷ rs) (le, h) = omega (arith, Between-le time last rs h)

module _ (hash : Bytes → ℕ) (key : Bytes) (rule : Rule) where
  -- The units that are granted to the requests, one after the other.
  unfoldable pub units : Requests → Local → ℕ
  units [] t = 0
  units ((now, n) ∷ rs) t = credit (allow_n hash now key rule n t) n (λ u. units rs u)

  abbrev since : (now : ℕ) → Local → ℕ
  since now t = start now (find (shard_of hash key rule) (entry_key key rule) t)

  -- What is granted keeps the key's time ahead, but by no more than the period.
  abbrev Within : (now last : ℕ) → (total : ℕ) → Local → Type 0
  Within now last total t =
      (total ≡ 0) ⊎ (total * emission_interval rule + since now t ≤ last + rule.period)

  since-put :
      (now n : ℕ) (t : Local) (tat : ℕ)
      → tat ≤ since now (put (shard_of hash key rule) (entry_key key rule) tat t)
  unfolding start
  since-put now n t tat =
      let s = shard_of hash key rule in
      let k = entry_key key rule in rw (find-put s k s k tat t, same_place_refl s k) (ground arith)

  credit-Within :
      (before now last n : ℕ) (rs : Requests) (t : Local) (r : Option (Decision × Local))
      → before ≤ now
      → Between now last rs
      → ((u : Local) → Within now last (units rs u) u)
      → at_least_one n * emission_interval rule < half_word
      → Answer (shard_of hash key rule) (entry_key key rule) now rule n (since now t) t r
      → Within before last (credit r n (λ u. units rs u)) t
  credit-Within before now last n rs t _ le h rest small (refused d over no_pass exact) =
      let ahead =
        (start_later before now (find (shard_of hash key rule) (entry_key key rule) t) le).0 in
      rw (no_pass) (elim (rest t) [
        | inl nothing ↦ inl (omega (arith, nothing))
        | inr within ↦ inr (omega (arith, within, ahead))
      ])
  credit-Within before now last n rs t _ le h rest small (granted d fits pass) =
      let s = shard_of hash key rule in
      let k = entry_key key rule in
      let new_tat = arrival rule n (since now t) in
      let whole = arrival-exact rule n (since now t) small in
      let u = put s k new_tat t in
      let ahead = (start_later before now (find s k t) le).0 in
      let kept = since-put now n t new_tat in
      let order = Between-le now last rs h in
      rw (pass) (elim (rest u) [
        | inl nothing ↦ inr (rw (nothing) (omega (arith, ahead, order, whole, fits)))
        | inr within ↦ inr (omega (arith, within, ahead, kept, whole))
      ])

  units-Within :
      (now last : ℕ) (rs : Requests) (t : Local)
      → 0 < emission_interval rule
      → Affordable rule rs
      → Between now last rs
      → Within now last (units rs t) t
  unfolding units allow_n
  units-Within now last [] t positive small h = inl refl
  units-Within now last ((time, n) ∷ rs) t positive (cost, small) (le, h) =
      let s = shard_of hash key rule in
      let k = entry_key key rule in
      credit-Within now time last n rs t _ le h (λ u. units-Within time last rs u positive small h)
        cost (decide_at-Answer s k time rule n (since time t) t positive)

  -- In any span of time, from whatever state, the units granted to a client under a rule take no more
  -- than the span and one period, at the rule's interval for each, if the interval is positive and the
  -- cost of each request is an `int64` number of nanoseconds, so that it does not wrap.
  pub units_bound :
      (now last : ℕ) (rs : Requests) (t : Local)
      → 0 < emission_interval rule
      → Affordable rule rs
      → Between now last rs
      → units rs t * emission_interval rule ≤ (last - now) + rule.period
  units_bound now last rs t positive small h =
      let order = Between-le now last rs h in
      elim (units-Within now last rs t positive small h) [
        | inl nothing ↦ rw (nothing) (omega arith)
        | inr within ↦
            omega
              (arith, within, start_now now (find (shard_of hash key rule) (entry_key key rule) t))
      ]
