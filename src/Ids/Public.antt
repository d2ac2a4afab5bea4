-- ===== src/Ids/Public.antt =====
-- The public identifiers of internal/platform/ids/ids.go. A text is its bytes.
use Prim.Native.Nat.{bit_or}
use market_place.Prelude.{
  ℕ, zero, suc, ◌+◌, ◌-◌, ◌*◌, ◌/◌, ◌%◌, ◌^◌, Bool, true, false, not, ◌&&◌, ◌||◌, ◌==◌, ltb,
  if◌then◌else◌, Option, none, some, [], ◌∷◌, ◌++◌, length, take, drop, Result, ok, err, ◌>>◌,
  refuse_if,
}
use market_place.Bytes.{Bytes, big_endian, sub, byte_at, codes, equal, index_byte}

-- `crockford`
abbrev pub crockford : Bytes
crockford = codes "0123456789ABCDEFGHJKMNPQRSTVWXYZ"

-- The symbol that a byte stands for, in upper or lower case.
unfoldable pub symbol_from : (i c : ℕ) → Bytes → Option ℕ
symbol_from i c [] = none
symbol_from i c (x ∷ xs) =
    let rest = symbol_from (suc i) c xs in if x == c || bit_or x 0x20 == c then some i else rest

-- `crockfordRev`, with `none` for -1: the letters that are left out are aliases.
unfoldable pub crockford_rev : ℕ → Option ℕ
crockford_rev c =
    if c == b'o' || c == b'O'
    then some 0
    else if c == b'i' || c == b'I' || c == b'l' || c == b'L'
    then some 1
    else if c == b'u' || c == b'U'
    then some 27
    else symbol_from 0 c crockford

-- The loop of `encodeCrockford`, with its rounds left. The shifted high bits do not meet the low word.
unfoldable pub encode_rounds : (rounds hi lo : ℕ) → Bytes → Bytes
encode_rounds zero hi lo out = out
encode_rounds (suc n) hi lo out =
    encode_rounds n (hi / 32) (lo / 32 + hi % 32 * 2 ^ 59) (byte_at crockford (lo % 32) ∷ out)

-- `encodeCrockford`
unfoldable pub encode_crockford : Bytes → Bytes
encode_crockford b = encode_rounds 26 (big_endian (sub 0 8 b)) (big_endian (sub 8 8 b)) []

-- `NewPublic` with the random bytes that it reads.
unfoldable pub new_public : (prefix raw : Bytes) → Bytes
new_public prefix raw = prefix ++ (b'_' ∷ encode_crockford raw)

-- `ErrBadPublicID`, alone and as it is wrapped for another prefix.
pub data IdError : Type 0 where
  bad_public_id : IdError
  wrong_prefix : IdError

abbrev pub is_symbol : ℕ → Bool
is_symbol c = elim (crockford_rev c) [ none ↦ false | some d ↦ true ]

unfoldable pub are_symbols : Bytes → Bool
are_symbols [] = true
are_symbols (c ∷ cs) = is_symbol c && are_symbols cs

-- `ParsePublic` behind the place of the underscore.
unfoldable pub parse_body : (want s : Bytes) → Option ℕ → Result IdError Bytes
parse_body want s none = err bad_public_id
parse_body want s (some i) = do
  refuse_if (i == 0 || suc i == length s) bad_public_id
  refuse_if (not (equal (take i s) want)) wrong_prefix
  refuse_if (not (length (drop (suc i) s) == 26)) bad_public_id
  refuse_if (not (are_symbols (drop (suc i) s))) bad_public_id
  ok (drop (suc i) s)

-- `ParsePublic`
unfoldable pub parse_public : (want s : Bytes) → Result IdError Bytes
parse_public want s = parse_body want s (index_byte b'_' s)

abbrev valid_body : (s : Bytes) → Option ℕ → Bool
valid_body s none = false
valid_body s (some i) =
    not (i == 0 || ltb 4 i || not (length s - i - 1 == 26)) && are_symbols (drop (suc i) s)

-- `ValidPublic`
unfoldable pub valid_public : Bytes → Bool
valid_public s = valid_body s (index_byte b'_' s)
