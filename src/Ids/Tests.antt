-- ===== src/Ids/Tests.antt =====
-- Runs of internal/platform/ids/ids.go, and the theorems at inputs.
use market_place.Prelude.{◌≡◌, refl, true, some, List, [], ◌∷◌, ok, err, arith}
use market_place.Bytes.{Bytes, big_endian, put_big_endian, codes, index_byte}
use market_place.Ids.Uuid.{Generator, Draw, bump, tick, stamp, new_uuid_v7, issue}
use market_place.Ids.Monotone.{Issued, issue-Issued}
use market_place.Ids.Public.{
  encode_crockford, new_public, parse_public, valid_public, encode_rounds, parse_body, wrong_prefix,
}
use market_place.Ids.Readable.{read_from, parse_public-new_public}

abbrev random : Bytes
random = 1 ∷ 2 ∷ 0xFF ∷ 4 ∷ 5 ∷ 6 ∷ 7 ∷ 8 ∷ 9 ∷ 10 ∷ []

-- The clock stands, and then goes back.
abbrev draws : List Draw
draws =
    record { now = 1000; random = random }
    ∷ record { now = 1000; random = random }
    ∷ record { now = 400; random = random }
    ∷ []

abbrev full : Generator
full = record { last_ms = 900; last_seq = 0x0FFF }

-- The counter carries into the time, which the clock has not reached.
carry : (tick 900 full).last_ms ≡ 901
unfolding tick bump
carry = refl

second :
    (new_uuid_v7 (record { now = 900; random = random }) full).0
    ≡ 0 ∷ 0 ∷ 0 ∷ 0 ∷ 3 ∷ 0x85 ∷ 0x70 ∷ 0 ∷ 0xBF ∷ 4 ∷ 5 ∷ 6 ∷ 7 ∷ 8 ∷ 9 ∷ 10 ∷ []
unfolding new_uuid_v7 tick bump stamp put_big_endian
second = refl

issue-Issued_example : Issued 1000 1 0 draws (issue draws full)
issue-Issued_example =
    issue-Issued 1000 draws full (omega arith) (omega arith) (omega arith) (omega arith)
      (omega arith)

abbrev raw : Bytes
raw = 0 ∷ 0 ∷ 0 ∷ 0 ∷ 0 ∷ 0 ∷ 0 ∷ 1 ∷ 255 ∷ 0 ∷ 0 ∷ 0 ∷ 0 ∷ 0 ∷ 0 ∷ 31 ∷ []

abbrev ord : Bytes
ord = codes "ord"

encoded : encode_crockford raw ≡ codes "0000000000000ZY0000000000Z"
unfolding encode_crockford encode_rounds
encoded = refl

-- An identifier of another kind is refused.
other_kind : parse_public (codes "prd") (codes "ord_0000000000000ZY0000000000Z") ≡ err wrong_prefix
unfolding parse_public parse_body index_byte
other_kind = refl

parse_public-new_public_example :
    (parse_public ord (new_public ord raw) ≡ ok (encode_crockford raw))
    × (read_from 0 (encode_crockford raw) ≡ some (big_endian raw))
    × (valid_public (new_public ord raw) ≡ true)
parse_public-new_public_example =
    parse_public-new_public ord raw (omega arith, omega arith, ground arith) refl (omega arith)
