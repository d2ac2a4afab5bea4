-- ===== src/Provenance/Cbor/Decode.antt =====
-- The decoder of internal/modules/provenance/cbor.go.
use market_place.Prelude.{
  ℕ, zero, suc, ◌+◌, ◌-◌, ◌*◌, ◌/◌, ◌%◌, ◌^◌, pos, ◌-ℤ◌, true, false, if◌then◌else◌, ltb, leb, ◌==◌,
  half_word, [], ◌∷◌, length, take, drop, Result, ok, err, ◌>>=◌, ◌>>◌, refuse_if,
}
use market_place.Bytes.{Bytes, big_endian}
use market_place.Provenance.Cbor.Values.{
  single, double, Value, uint, neg_int, bytes, text, array, map, tag, boolean, null, undefined,
  float, Values, nil, cons, Pairs, empty, pair, CborError, truncated, nesting, unsupported,
}

-- An argument in the n bytes after the first, and the length of the header.
abbrev pub wide_argument : (n : ℕ) → Bytes → Result CborError (ℕ × ℕ)
wide_argument n b =
    if ltb (length b) (n + 1) then err truncated else ok (big_endian (take n (drop 1 b)), n + 1)

-- `decodeArgument`
unfoldable pub decode_argument : Bytes → (minor : ℕ) → Result CborError (ℕ × ℕ)
decode_argument b minor =
    if ltb minor 24
    then ok (minor, 1)
    else if minor == 24
    then wide_argument 1 b
    else if minor == 25
    then wide_argument 2 b
    else if minor == 26
    then wide_argument 4 b
    else if minor == 27
    then wide_argument 8 b
    else err unsupported

abbrev pub max_elements : ℕ
max_elements = 1_048_576

-- `checkCount`
unfoldable pub check_count : (count remaining : ℕ) → Result CborError (Unit {0})
check_count count remaining = do
  refuse_if (ltb max_elements count) unsupported
  refuse_if (ltb remaining count) truncated

-- The normalisation of a subnormal's mantissa, which has 10 bits: 10 rounds are enough.
unfoldable pub normalise : (rounds mant e : ℕ) → ℕ × ℕ
normalise zero mant e = (mant, e)
normalise (suc n) mant e =
    let rest = normalise n (mant * 2) (e - 1) in if mant / 1024 % 2 == 0 then rest else (mant, e)

abbrev pub subnormal : ℕ × ℕ → ℕ
subnormal (mant, e) = e * 2 ^ 23 + mant % 1024 * 2 ^ 13

-- `halfToSingle`, on the bits; its fields do not overlap, so that `|` adds.
unfoldable pub half_to_single : ℕ → ℕ
unfolding normalise
half_to_single h =
    let sign = h / 2 ^ 15 * 2 ^ 31 in
    let exp = h / 1024 % 32 in
    let mant = h % 1024 in
    if exp == 0
    then if mant == 0 then sign else sign + subnormal (normalise 10 mant 113)
    else if exp == 31
    then sign + 0x7f80_0000 + mant * 2 ^ 13
    else sign + (exp + 112) * 2 ^ 23 + mant * 2 ^ 13

-- The simple values and floats of major type 7.
unfoldable pub decode_simple : (minor arg : ℕ) → Result CborError Value
decode_simple minor arg =
    if minor == 20
    then ok (boolean false)
    else if minor == 21
    then ok (boolean true)
    else if minor == 22
    then ok null
    else if minor == 23
    then ok undefined
    else if minor == 25
    then ok (float (single (half_to_single arg)))
    else if minor == 26
    then ok (float (single arg))
    else if minor == 27
    then ok (float (double arg))
    else err unsupported

-- The major types, by the top three bits of the first byte.
pub data Major : Type 0 where
  unsigned negative byte_string text_string arrays maps tags simple : Major

unfoldable pub major_of : ℕ → Major
major_of n =
    if n == 0
    then unsigned
    else if n == 1
    then negative
    else if n == 2
    then byte_string
    else if n == 3
    then text_string
    else if n == 4
    then arrays
    else if n == 5
    then maps
    else if n == 6
    then tags
    else simple

-- A decoder of one item: the item, and the number of bytes it takes.
abbrev pub Decoder : Type 0
Decoder = Bytes → Result CborError (Value × ℕ)

-- The loop over the elements of an array.
unfoldable pub decode_items : Decoder → ℕ → Bytes → Result CborError (Values × ℕ)
decode_items item zero b = ok (nil, 0)
decode_items item (suc n) b = do
  (v, used) ← item b
  (vs, more) ← decode_items item n (drop used b)
  ok (cons v vs, used + more)

-- The loop over the entries of a map.
unfoldable pub decode_pairs : Decoder → ℕ → Bytes → Result CborError (Pairs × ℕ)
decode_pairs item zero b = ok (empty, 0)
decode_pairs item (suc n) b = do
  (k, key_used) ← item b
  (v, val_used) ← item (drop key_used b)
  (ps, more) ← decode_pairs item n (drop val_used (drop key_used b))
  ok (pair k v ps, key_used + (val_used + more))

-- A string of `arg` bytes after a header of n.
abbrev pub decode_string :
    (Bytes → Value) → (arg n : ℕ) → (rest : Bytes) → Result CborError (Value × ℕ)
decode_string kind arg n rest =
    if ltb (length rest) arg then err truncated else ok (kind (take arg rest), n + arg)

-- The switch of `decodeCBORAt` on the major type; `item` decodes one level deeper.
unfoldable pub decode_body :
    Decoder → Major → (minor arg n : ℕ) → (rest : Bytes) → Result CborError (Value × ℕ)
decode_body item unsigned minor arg n rest = ok (uint arg, n)
decode_body item negative minor arg n rest =
    if leb half_word arg then err unsupported else ok (neg_int (pos 0 -ℤ pos (arg + 1)), n)
decode_body item byte_string minor arg n rest = decode_string bytes arg n rest
decode_body item text_string minor arg n rest = decode_string text arg n rest
decode_body item arrays minor arg n rest = do
  check_count arg (length rest)
  (vs, used) ← decode_items item arg rest
  ok (array vs, n + used)
decode_body item maps minor arg n rest = do
  check_count arg (length rest)
  (ps, used) ← decode_pairs item arg rest
  ok (map ps, n + used)
decode_body item tags minor arg n rest = do (v, used) ← item rest; ok (tag arg v, n + used)
decode_body item simple minor arg n rest = do v ← decode_simple minor arg; ok (v, n)

-- `decodeCBORAt`, with `levels` for how much deeper an item may still be nested: it is
-- `maxCBORNesting` + 1 less the depth.
unfoldable pub decode_at : (levels : ℕ) → Decoder
decode_at zero b = err nesting
decode_at (suc k) [] = err truncated
decode_at (suc k) (h ∷ t) = do
  (arg, n) ← decode_argument (h ∷ t) (h % 32)
  decode_body (decode_at k) (major_of (h / 32)) (h % 32) arg n (drop n (h ∷ t))

-- `decodeCBOR`
abbrev pub decode : Decoder
decode = decode_at 33
