-- ===== src/Ids/Monotone.antt =====
-- UUIDv7 of internal/platform/ids/ids.go: their order and their times.
use Prim.Native.Nat.{bit_and, bit_or}
use market_place.Prelude.{
  ℕ, suc, ◌+◌, ◌*◌, ◌/◌, ◌%◌, ◌^◌, ◌≤◌, ◌<◌, ◌≡◌, refl, true, ◌==◌, ==_iff, ltb, ltb→lt, List, [],
  ◌∷◌, ◌++◌, length, drop, All, take-append, length-drop, arith,
}
use market_place.Bytes.{
  Bytes, AreBytes, big_endian, put_big_endian, length-put_big_endian, big_endian-put_big_endian,
  big_endian-append, big_endian-lt, byte_at, every_below, every_below_sound,
}
use market_place.Ids.Uuid.{Generator, bump, tick, stamp, Draw, new_uuid_v7, issue, uuid_time}

-- The counter has 12 bits.
abbrev pub IsCounted : Generator → Type 0
IsCounted g = g.last_seq ≤ 0x0FFF

-- How many counters a generator has gone through.
abbrev pub rank : Generator → ℕ
rank g = g.last_ms * 4096 + g.last_seq

-- A call moves the state up by one counter, or to the clock.
tick-rank :
    (now : ℕ) (g : Generator)
    → IsCounted g
    → IsCounted (tick now g) × (suc (rank g) ≤ rank (tick now g)) × (now ≤ (tick now g).last_ms)
unfolding tick bump
tick-rank now g c = ground arith

tick_latest :
    (now limit : ℕ) (g : Generator)
    → IsCounted g
    → now * 4096 ≤ limit
    → rank g < limit
    → rank (tick now g) ≤ limit
unfolding tick bump
tick_latest now limit g c h k = ground arith

-- The version's bits and the counter's upper ones do not meet.
version_table : every_below 16 (λ x. bit_or 0x70 x == 0x70 + x) ≡ true
unfolding every_below
version_table = refl

version_byte : (seq : ℕ) → seq ≤ 0x0FFF → bit_or 0x70 (seq / 256 % 256) ≡ 0x70 + seq / 256
version_byte seq h =
    let upper : seq / 256 % 256 ≡ seq / 256 = omega arith in
    rw upper (
      (==_iff _ (0x70 + seq / 256)).0 (
        every_below_sound 16 (λ x. bit_or 0x70 x == 0x70 + x) (seq / 256) version_table
          (omega arith)))

variant_table : every_below 256 (λ x. ltb (bit_or (bit_and x 0x3F) 0x80) 256) ≡ true
unfolding every_below
variant_table = refl

-- The random part of a UUID is below its counter's place.
tail : Bytes → Bytes
tail random = bit_or (bit_and (byte_at random 2) 0x3F) 0x80 ∷ drop 3 random

-- What one call reads: ten bytes.
abbrev pub IsDraw : Draw → Type 0
IsDraw d = (length (d.random) ≡ 10) × AreBytes (d.random)

tail-lt :
    (random : Bytes) → length random ≡ 10 → AreBytes random → big_endian (tail random) < 2 ^ 64
unfolding tail
tail-lt (a ∷ b ∷ c ∷ random) e (_, (_, (hc, h))) =
    let variant : bit_or (bit_and c 0x3F) 0x80 < 256 =
      ltb→lt _ 256
        (every_below_sound 256 (λ x. ltb (bit_or (bit_and x 0x3F) 0x80) 256) c variant_table hc) in
    let size : length random ≡ 7 = omega arith in
    let below = big_endian-lt (bit_or (bit_and c 0x3F) 0x80 ∷ random) (variant, h) in
    let exact : 256 ^ suc (length random) ≡ 2 ^ 64 = rw size in omega arith
tail-lt [] e h = absurd (omega arith)
tail-lt (a ∷ []) e h = absurd (omega arith)
tail-lt (a ∷ b ∷ []) e h = absurd (omega arith)

length-tail : (random : Bytes) → length random ≡ 10 → length (tail random) ≡ 8
unfolding tail
length-tail random e = omega (arith, length-drop 3 random)

-- What stands in a UUID before the random bytes.
abbrev lead : Generator → ℕ
lead g = g.last_ms * 65536 + 28672 + g.last_seq

stamp-parts :
    (g : Generator) (random : Bytes) (version : ℕ)
    → bit_or 0x70 (g.last_seq / 256 % 256) ≡ version
    → stamp g random ≡ put_big_endian 6 (g.last_ms) ++ (version ∷ (g.last_seq % 256) ∷ tail random)
unfolding stamp tail
stamp-parts g random version e = rw e

number :
    (g : Generator) (random : Bytes)
    → IsCounted g
    → length random ≡ 10
    → g.last_ms < 2 ^ 48
    → big_endian (stamp g random) ≡ lead g * 2 ^ 64 + big_endian (tail random)
number g random c e h =
    let time = put_big_endian 6 (g.last_ms) in
    let seq = g.last_seq in
    let rest = tail random in
    let size : length rest ≡ 8 = length-tail random e in
    let low : 256 ^ length rest ≡ 2 ^ 64 = rw size in
    let high : 256 ^ suc (suc (length rest)) ≡ 2 ^ 80 = rw size in
    let whole : big_endian time ≡ g.last_ms =
      big_endian-put_big_endian 6 (g.last_ms) (omega arith) in
    let version = 0x70 + seq / 256 in
    let split : big_endian (time ++ (version ∷ (seq % 256) ∷ rest))
        ≡ big_endian time * 2 ^ 80 + big_endian (version ∷ (seq % 256) ∷ rest) =
      rw (← high) (big_endian-append 0 time (version ∷ (seq % 256) ∷ rest)) in
    let inner : big_endian (version ∷ (seq % 256) ∷ rest)
        ≡ big_endian (version ∷ (seq % 256) ∷ []) * 2 ^ 64 + big_endian rest =
      rw (← low) (big_endian-append 0 (version ∷ (seq % 256) ∷ []) rest) in
    rw (stamp-parts g random version (version_byte seq c)) (omega (arith, split, inner, whole))

-- Each UUID is above the one before, its time is not before its clock's, and the time of the k-th is
-- no later than the latest clock's and k / 4096 milliseconds.
abbrev pub Issued : (latest k floor : ℕ) → List Draw → List Bytes → Type 0
Issued latest k floor [] [] = Unit
Issued latest k floor (d ∷ ds) (u ∷ us) =
    (floor < big_endian u)
    × (d.now ≤ uuid_time u)
    × (uuid_time u ≤ latest + k / 4096)
    × Issued latest (suc k) (big_endian u) ds us
Issued _ _ _ _ _ = ⊥

stamp-time :
    (g : Generator) (random : Bytes) → g.last_ms < 2 ^ 48 → uuid_time (stamp g random) ≡ g.last_ms
unfolding stamp uuid_time
stamp-time g random h =
    rw (take-append 6 (put_big_endian 6 (g.last_ms)) _ (length-put_big_endian 6 (g.last_ms)))
      (big_endian-put_big_endian 6 (g.last_ms) (omega arith))

-- Issuing from a generator that stands above the floor.
issue_from :
    (latest k floor : ℕ) (ds : List Draw) (g : Generator)
    → IsCounted g
    → All IsDraw ds
    → All (λ d. d.now ≤ latest) ds
    → floor < suc (lead g) * 2 ^ 64
    → rank g < latest * 4096 + k
    → latest + (length ds + k) / 4096 < 2 ^ 48
    → Issued latest k floor ds (issue ds g)
unfolding issue new_uuid_v7
issue_from latest k floor [] g c hs ts f r room = tt
issue_from latest k floor (d ∷ ds) g c ((size, bytes), hs) (t, ts) f r room =
    let after = tick (d.now) g in
    let (c', up, clock) = tick-rank (d.now) g c in
    let near = tick_latest (d.now) (latest * 4096 + k) g c (omega arith) r in
    let fits : after.last_ms < 2 ^ 48 = omega arith in
    let value = number after (d.random) c' size fits in
    let low = tail-lt (d.random) size bytes in
    let time = stamp-time after (d.random) fits in
    (
      omega arith,
      omega arith,
      omega arith,
      issue_from latest (suc k) (big_endian (stamp after (d.random))) ds after c' hs ts
          (omega arith) (omega arith) (omega arith),
    )

-- Calls one after the other return UUIDs of which each, read as a number, is above the one before,
-- whatever the clock does, back or standing. The time in a UUID is not before its call's clock, and
-- that in the k-th is at most k / 4096 milliseconds later than the latest of the clocks. The
-- generator has issued nothing that is later, and the times have 48 bits.
pub issue-Issued :
    (latest : ℕ) (ds : List Draw) (g : Generator)
    → IsCounted g
    → All IsDraw ds
    → All (λ d. d.now ≤ latest) ds
    → rank g ≤ latest * 4096
    → latest + suc (length ds) / 4096 < 2 ^ 48
    → Issued latest 1 0 ds (issue ds g)
issue-Issued latest ds g c hs ts r room =
    issue_from latest 1 0 ds g c hs ts (omega arith) (omega arith) (omega arith)
