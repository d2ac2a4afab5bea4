-- ===== src/RateLimit/Rate.antt =====
-- What the limiter of internal/platform/ratelimit/ratelimit.go grants, and when.
use market_place.Prelude.{
  ℕ, zero, suc, ◌+◌, ◌-◌, ◌*◌, ◌<◌, ◌≤◌, ◌≡◌, ◌↔◌, ◌⊎◌, refl, sym, ap, ◌∙◌, inl, inr, Bool-cases,
  if_elim, if◌then◌else◌, ◌%◌, word, half_word, Bool, true, false, ltb, Option, none, some, arith,
}
use market_place.Bytes.{Bytes}
use market_place.RateLimit.Limiter.{
  Rule, Decision, Local, find, put, start, allow_n, allow_with, emission_interval, at_least_one,
  arrival, divide, decide_at, shard_of, entry_key,
}

below_word : (a : ℕ) → a < half_word → a % word ≡ a
below_word a small = omega arith

-- A cost that is a `time.Duration` is added as it is.
pub arrival-exact :
    (rule : Rule) (n tat : ℕ)
    → at_least_one n * emission_interval rule < half_word
    → arrival rule n tat ≡ tat + at_least_one n * emission_interval rule
unfolding arrival
arrival-exact rule n tat small =
    let cost = at_least_one n * emission_interval rule in
    let whole : cost % word ≡ cost = below_word cost small in rw whole (ground (arith, small))

-- How a request ends when its rule's interval is not 0.
pub data Answer (s : ℕ) (k : Bytes) (now : ℕ) (rule : Rule) (n tat : ℕ) (t : Local)
    : Option (Decision × Local) → Type 0 where
  refused :
      (d : Decision)
      → now + rule.period < arrival rule n tat
      → d.allowed ≡ false
      → now + (d.retry_after + rule.period) ≡ arrival rule n tat
      → Answer s k now rule n tat t (some (d, t))
  granted :
      (d : Decision)
      → arrival rule n tat ≤ now + rule.period
      → d.allowed ≡ true
      → Answer s k now rule n tat t (some (d, put s k (arrival rule n tat) t))

pub decide_at-Answer :
    (s : ℕ) (k : Bytes) (now : ℕ) (rule : Rule) (n tat : ℕ) (t : Local)
    → 0 < emission_interval rule
    → Answer s k now rule n tat t (decide_at s k now rule n tat t)
unfolding decide_at
decide_at-Answer s k now rule n tat t positive =
    let new_tat = arrival rule n tat in
    if_elim (Answer s k now rule n tat t) (ltb (now + rule.period) new_tat)
      (λ e. refused _ (ground (arith, e)) refl (ground (arith, e)))
      (λ e.
        divided (emission_interval rule) (if ltb left half_word then left else 0) positive
          (ground (arith, e)))
  where
    left : ℕ
    left = now + rule.period - arrival rule n tat

    divided :
        (ei m : ℕ)
        → 0 < ei
        → arrival rule n tat ≤ now + rule.period
        → Answer s k now rule n tat t
            (allow_with now (arrival rule n tat) (put s k (arrival rule n tat) t) (divide m ei))
    divided zero m positive le = absurd (omega arith)
    divided (suc ei) m positive le = granted _ le refl

-- A later request counts from the same time, or from its own.
pub start_later :
    (now later : ℕ) (o : Option ℕ)
    → now ≤ later
    → (start now o ≤ start later o) × ((start later o ≡ start now o) ⊎ (start later o ≡ later))
unfolding start
start_later now later none le = (omega arith, inr refl)
start_later now later (some tat) le = elim (Bool-cases (ltb tat later)) [
  | inl past ↦ (ground (arith, past), inr (ground (arith, past)))
  | inr ahead ↦ (ground (arith, ahead), inl (ground (arith, ahead)))
]

pub start_now : (now : ℕ) (o : Option ℕ) → now ≤ start now o
unfolding start
start_now now none = omega arith
start_now now (some tat) = ground arith

abbrev pub is_allowed : Option (Decision × Local) → Bool
is_allowed none = false
is_allowed (some (d, t)) = d.allowed

-- A request that takes no more than the period passes from a time on.
passes_iff :
    (s : ℕ) (k : Bytes) (later : ℕ) (rule : Rule) (n tat since : ℕ) (t : Local)
    (r : Option (Decision × Local))
    → at_least_one n * emission_interval rule ≤ rule.period
    → rule.period < half_word
    → tat ≤ since
    → (since ≡ tat) ⊎ (since ≡ later)
    → Answer s k later rule n since t r
    → (is_allowed r ≡ true) ↔ (tat + at_least_one n * emission_interval rule ≤ later + rule.period)
passes_iff s k later rule n tat since t _ small short le from (refused d over no_pass exact) =
    let whole = arrival-exact rule n since (omega arith) in
    (
      λ e. absurd (cc),
      λ within. absurd (elim from [
        | inl same ↦ omega (arith, same, whole, over)
        | inr own ↦ omega (arith, own, whole, over)
      ]),
    )
passes_iff s k later rule n tat since t _ small short le from (granted d fits pass) =
    let whole = arrival-exact rule n since (omega arith) in
    (λ _. omega (arith, whole, fits), λ _. pass)

module _ (hash : Bytes → ℕ) where
  retry_lem :
      (now later : ℕ) (key : Bytes) (rule : Rule) (n : ℕ) (t : Local) (d : Decision) (u : Local)
      (r : Option (Decision × Local))
      → 0 < emission_interval rule
      → at_least_one n * emission_interval rule ≤ rule.period
      → rule.period < half_word
      → now ≤ later
      → Answer
          (shard_of hash key rule)
          (entry_key key rule)
          now
          rule
          n
          (start now (find (shard_of hash key rule) (entry_key key rule) t))
          t
          r
      → r ≡ some (d, u)
      → d.allowed ≡ false
      → (is_allowed (allow_n hash later key rule n u) ≡ true) ↔ (now + d.retry_after ≤ later)
  unfolding allow_n
  retry_lem now later key rule n t d u _ positive small short le (granted d' fits pass) e no_pass =
      absurd (
        let same : d' ≡ d = cc in
        let bad : true ≡ false = sym pass ∙ (ap (λ x. x.allowed) same ∙ no_pass) in cc)
  retry_lem now later key rule n t d u _ positive small short le (refused d' over no_pass exact) e
        _ =
      let s = shard_of hash key rule in
      let k = entry_key key rule in
      let same : d' ≡ d = cc in
      let kept : t ≡ u = cc in
      let (up, from) = start_later now later (find s k t) le in
      let (to, back) =
        passes_iff s k later rule n (start now (find s k t)) (start later (find s k t)) t _ small
          short up from (decide_at-Answer s k later rule n (start later (find s k t)) t positive) in
      let whole = arrival-exact rule n (start now (find s k t)) (omega arith) in
      rw (← same, ← kept)
        (λ pass. omega (arith, to pass, exact, whole), λ due. back (omega (arith, exact, whole)))

  -- `RetryAfter` is exact: when a request whose cost is within the period, an `int64`, is refused, the same
  -- request at a later time, with nothing in between, passes just when that time is at least
  -- `RetryAfter` ahead.
  pub retry_after_exact :
      (now later : ℕ) (key : Bytes) (rule : Rule) (n : ℕ) (t : Local) (d : Decision) (u : Local)
      → 0 < emission_interval rule
      → at_least_one n * emission_interval rule ≤ rule.period
      → rule.period < half_word
      → now ≤ later
      → allow_n hash now key rule n t ≡ some (d, u)
      → d.allowed ≡ false
      → (is_allowed (allow_n hash later key rule n u) ≡ true) ↔ (now + d.retry_after ≤ later)
  unfolding allow_n
  retry_after_exact now later key rule n t d u positive small short le e no_pass =
      let s = shard_of hash key rule in
      let k = entry_key key rule in
      retry_lem now later key rule n t d u _ positive small short le
        (decide_at-Answer s k now rule n (start now (find s k t)) t positive) e no_pass
