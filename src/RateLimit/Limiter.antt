-- ===== src/RateLimit/Limiter.antt =====
-- The in-process limiter of internal/platform/ratelimit/ratelimit.go. A time is in nanoseconds after an
-- origin that is longer ago than any `time.Duration`, so that it is never negative.
use market_place.Prelude.{
  ℤ, pos, ◌-ℤ◌, word, half_word, ℕ, zero, suc, ◌+◌, ◌-◌, ◌*◌, ◌/◌, ◌%◌, Bool, true, false, ◌&&◌,
  if◌then◌else◌, ltb, ◌==◌, Option, none, some, List, [], ◌∷◌, ◌++◌, length,
}
use market_place.Bytes.{Bytes, equal}

-- `Rule`; a burst that is not positive is 0.
pub record Rule : Type 0 where
  pub name : Bytes
  pub burst : ℕ
  pub period : ℕ

-- `emissionInterval`
unfoldable pub emission_interval : Rule → ℕ
emission_interval rule = elim (rule.burst) [
  | zero ↦ rule.period
  | suc n ↦ rule.period / (rule.burst)
]

-- `delayTolerance`
abbrev pub delay_tolerance : Rule → ℕ
delay_tolerance rule = rule.period

-- `Decision`
pub record Decision : Type 0 where
  pub allowed : Bool
  pub remaining : ℕ
  pub retry_after : ℕ
  pub reset_after : ℤ

-- One entry of the shards' maps: its shard, its key there and its theoretical arrival time.
pub record Entry : Type 0 where
  pub shard : ℕ
  pub key : Bytes
  pub tat : ℕ

-- `Local`: the entries of all shards.
abbrev pub Local : Type 0
Local = List Entry

abbrev pub is_at : (shard : ℕ) (key : Bytes) → Entry → Bool
is_at shard key e = (e.shard == shard) && equal (e.key) key

-- `s.tat[key]`
unfoldable pub find : (shard : ℕ) (key : Bytes) → Local → Option ℕ
find shard key [] = none
find shard key (e ∷ es) =
    let rest = find shard key es in if is_at shard key e then some (e.tat) else rest

-- `s.tat[key] = tat`
unfoldable pub put : (shard : ℕ) (key : Bytes) (tat : ℕ) → Local → Local
put shard key tat [] = record { shard = shard; key = key; tat = tat } ∷ []
put shard key tat (e ∷ es) =
    let rest = put shard key tat es in
    if is_at shard key e then (record { shard = shard; key = key; tat = tat } ∷ es) else (e ∷ rest)

-- `Sweep`, with the entries that it leaves; it drops those whose time is past.
unfoldable pub sweep : (now : ℕ) → Local → Local
sweep now [] = []
sweep now (e ∷ es) = let rest = sweep now es in if ltb (e.tat) now then rest else (e ∷ rest)

-- `Size`
abbrev pub size : Local → ℕ
size = length

-- Where a request starts to count: its key's time, when that is not past.
unfoldable pub start : (now : ℕ) → Option ℕ → ℕ
start now none = now
start now (some tat) = if ltb tat now then now else tat

abbrev pub at_least_one : ℕ → ℕ
at_least_one zero = 1
at_least_one (suc n) = suc n

-- The division of `AllowN`, which panics when the interval is 0.
abbrev pub divide : ℕ → ℕ → Option ℕ
divide a zero = none
divide a (suc b) = some (a / (suc b))

-- The time to which a request's cost leads from `tat`. The cost is an `int64`: a product of 2 ^ 63 or more
-- wraps, and may be negative.
unfoldable pub arrival : Rule → (n tat : ℕ) → ℕ
arrival rule n tat =
    let cost = at_least_one n * emission_interval rule % word in
    if ltb cost half_word then tat + cost else tat - (word - cost)

-- The units that remain: the tolerance less the time ahead wraps to a negative duration when it is 2 ^ 63
-- or more, and a negative quotient is raised to 0.
abbrev pub remaining_of : (left ei : ℕ) → Option ℕ
remaining_of left ei = divide (if ltb left half_word then left else 0) ei

-- A decision that lets a request pass, with its entry.
abbrev pub allow_with : (now new_tat : ℕ) → Local → Option ℕ → Option (Decision × Local)
allow_with now new_tat after none = none
allow_with now new_tat after (some remaining) = some (
  record {
    allowed = true;
    remaining = remaining;
    retry_after = 0;
    reset_after = pos new_tat -ℤ pos now;
  },
  after,
)

-- The map's key of a rule and a client: `key+"\x00"+rule.Name`.
abbrev pub entry_key : (key : Bytes) → Rule → Bytes
entry_key key rule = key ++ (0 ∷ rule.name)

-- The part of `AllowN` behind the lookup, for a key's place and the time from which it counts. What is
-- compared with now in the source, `newTAT` less the tolerance, might be negative: here the
-- tolerance is added to now.
unfoldable pub decide_at :
    (shard : ℕ)
    → (entry : Bytes) → (now : ℕ) → Rule
    → (n tat : ℕ) → Local
    → Option (Decision × Local)
decide_at shard entry now rule n tat table =
    let ei = emission_interval rule in
    let tol = delay_tolerance rule in
    let new_tat = arrival rule n tat in
    if ltb (now + tol) new_tat
    then some (
      record {
        allowed = false;
        remaining = 0;
        retry_after = new_tat - tol - now;
        reset_after = pos (tat - now);
      },
      table,
    )
    else allow_with now new_tat (put shard entry new_tat table)
        (remaining_of (now + tol - new_tat) ei)

module _ (hash : Bytes → ℕ) where
  abbrev pub shard_of : (key : Bytes) → Rule → ℕ
  shard_of key rule = hash (rule.name ++ key) % 256

  -- `AllowN` for n units, at a time and in a state; `none` for a panic.
  unfoldable pub allow_n :
      (now : ℕ) → (key : Bytes) → Rule → (n : ℕ) → Local → Option (Decision × Local)
  allow_n now key rule n table =
      let shard = shard_of key rule in
      let entry = entry_key key rule in
      decide_at shard entry now rule n (start now (find shard entry table)) table

  -- `Allow`
  unfoldable pub allow : (now : ℕ) → (key : Bytes) → Rule → Local → Option (Decision × Local)
  allow now key rule table = allow_n now key rule 1 table
