-- ===== src/Ids/Uuid.antt =====
-- UUIDv7 of internal/platform/ids/ids.go. A generator's state is the package's `lastMS` and `lastSeq`,
-- under their lock; the clock and the random bytes are what one call reads. A time is in milliseconds
-- after the epoch and not before it.
use Prim.Native.Nat.{bit_and, bit_or}
use market_place.Prelude.{ℕ, suc, ◌/◌, ◌%◌, if◌then◌else◌, ltb, List, [], ◌∷◌, ◌++◌, take, drop}
use market_place.Bytes.{Bytes, put_big_endian, big_endian, byte_at}

-- `lastMS` and `lastSeq`
pub record Generator : Type 0 where
  pub last_ms : ℕ
  pub last_seq : ℕ

-- The counter goes up, and past its 12 bits it borrows the next millisecond.
unfoldable pub bump : Generator → Generator
bump g =
    if ltb 0x0FFF (suc (g.last_seq))
    then record { last_ms = suc (g.last_ms); last_seq = 0 }
    else record { last_ms = g.last_ms; last_seq = suc (g.last_seq) }

-- The state under the lock; the branches for the same millisecond and for a clock that has gone back
-- do the same.
unfoldable pub tick : (now : ℕ) → Generator → Generator
tick now g = if ltb (g.last_ms) now then record { last_ms = now; last_seq = 0 } else bump g

-- The bytes of the UUID: the time, the version and the counter, the variant and the random rest.
unfoldable pub stamp : Generator → (random : Bytes) → Bytes
stamp g random =
    put_big_endian 6 (g.last_ms)
    ++ (bit_or 0x70 (g.last_seq / 256 % 256)
        ∷ (g.last_seq % 256)
        ∷ bit_or (bit_and (byte_at random 2) 0x3F) 0x80
        ∷ drop 3 random)

-- What one call reads from outside.
pub record Draw : Type 0 where
  pub now : ℕ
  pub random : Bytes

-- `NewUUIDv7`
unfoldable pub new_uuid_v7 : Draw → Generator → Bytes × Generator
new_uuid_v7 d g = let after = tick (d.now) g in (stamp after (d.random), after)

-- The UUIDs of calls one after the other.
unfoldable pub issue : List Draw → Generator → List Bytes
issue [] g = []
issue (d ∷ ds) g = (new_uuid_v7 d g).0 ∷ issue ds ((new_uuid_v7 d g).1)

-- `UUID.Time`, in milliseconds.
unfoldable pub uuid_time : Bytes → ℕ
uuid_time u = big_endian (take 6 u)
