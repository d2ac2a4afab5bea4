-- ===== src/RateLimit/Tests.antt =====
-- The limiter of internal/platform/ratelimit/ratelimit.go on given requests.
use market_place.Prelude.{
  pos, ◌-ℤ◌, ◌^◌, half_word, ℕ, ◌*◌, ◌<◌, ◌≤◌, ◌≡◌, ◌↔◌, refl, true, false, none, some, List, [],
  ◌∷◌, arith,
}
use market_place.Bytes.{Bytes}
use market_place.RateLimit.Limiter.{
  Rule, Decision, Entry, find, put, sweep, start, allow_n, emission_interval, arrival, decide_at,
}
use market_place.RateLimit.Table.{IsMap}
use market_place.RateLimit.Forgets.{
  Event, request, sweep_at, requests, decisions, decisions-requests,
}
use market_place.RateLimit.Rate.{is_allowed, retry_after_exact}
use market_place.RateLimit.Bound.{units, units_bound}

-- Three requests in 60 units of time.
abbrev three : Rule
three = record { name = 1 ∷ []; burst = 3; period = 60 }

abbrev client : Bytes
client = 7 ∷ []

abbrev one_shard : Bytes → ℕ
one_shard b = 0

abbrev entry : (tat : ℕ) → Entry
entry t = record { shard = 0; key = 7 ∷ 0 ∷ 1 ∷ []; tat = t }

abbrev refusal : Decision
refusal = record { allowed = false; remaining = 0; retry_after = 20; reset_after = pos 60 }

abbrev pass : (remaining reset_after : ℕ) → Decision
pass r a = record { allowed = true; remaining = r; retry_after = 0; reset_after = pos a }

abbrev burst_of_four : List Event
burst_of_four =
    request 100 client three 1
    ∷ request 100 client three 1
    ∷ sweep_at 100
    ∷ request 100 client three 1
    ∷ request 100 client three 1
    ∷ sweep_at 161
    ∷ request 161 client three 1
    ∷ []

burst :
    decisions one_shard burst_of_four []
    ≡ some (pass 2 20 ∷ pass 1 40 ∷ pass 0 60 ∷ refusal ∷ pass 2 20 ∷ [])
unfolding decisions allow_n decide_at arrival ◌-ℤ◌ find put sweep start emission_interval
burst = refl

refused_at_100 :
    allow_n one_shard 100 client three 1 (entry 160 ∷ []) ≡ some (refusal, (entry 160 ∷ []))
unfolding allow_n decide_at arrival find put start emission_interval
refused_at_100 = refl

interval : 0 < emission_interval three
unfolding emission_interval
interval = omega arith

one_fits : 1 * emission_interval three ≤ 60
unfolding emission_interval
one_fits = omega arith

one_costs : 1 * emission_interval three < half_word
unfolding emission_interval
one_costs = omega arith

two_costs : 2 * emission_interval three < half_word
unfolding emission_interval
two_costs = omega arith

-- A cost that wraps: 2 ^ 62 units at an interval of 2 are a negative cost, and pass at once.
wraps :
    is_allowed
      (allow_n one_shard (2 ^ 64) client (record { name = []; burst = 1; period = 2 }) (2 ^ 62) [])
    ≡ true
unfolding allow_n decide_at arrival find put start emission_interval
wraps = refl

-- A rule with fewer units of time than requests has no interval, and a request under it panics.
crowded : allow_n one_shard 100 client (record { name = []; burst = 3; period = 2 }) 1 [] ≡ none
unfolding allow_n decide_at arrival find put start emission_interval
crowded = refl

is_map : IsMap (entry 160 ∷ [])
unfolding IsMap find
is_map = (refl, tt)

decisions-requests_example :
    decisions one_shard burst_of_four (entry 160 ∷ [])
    ≡ decisions one_shard (requests burst_of_four) (entry 160 ∷ [])
decisions-requests_example =
    decisions-requests one_shard 100 burst_of_four (entry 160 ∷ []) is_map (
      omega arith,
      (omega arith, (omega arith, (omega arith, (omega arith, (omega arith, (omega arith, tt)))))),
    )

retry_after_exact_example :
    (is_allowed (allow_n one_shard 120 client three 1 (entry 160 ∷ [])) ≡ true) ↔ (120 ≤ 120)
retry_after_exact_example =
    retry_after_exact one_shard 100 120 client three 1 (entry 160 ∷ []) refusal (entry 160 ∷ [])
      interval one_fits (omega arith) (omega arith) refused_at_100 refl

units_bound_example :
    units one_shard client three ((100, 1) ∷ (100, 2) ∷ (120, 1) ∷ []) [] * emission_interval three
    ≤ 80
units_bound_example =
    units_bound one_shard client three 100 120 ((100, 1) ∷ (100, 2) ∷ (120, 1) ∷ []) [] interval
      (one_costs, (two_costs, (one_costs, tt)))
      (omega arith, (omega arith, (omega arith, omega arith)))
