-- ===== src/Provenance/Cbor/Encode.antt =====
-- The encoder of internal/modules/provenance/cbor.go.
use market_place.Prelude.{ℕ, ◌+◌, ◌*◌, ◌^◌, if◌then◌else◌, ltb, List, [], ◌∷◌, ◌++◌, length}
use market_place.Bytes.{Bytes, put_big_endian}

-- `encodeCBORHead`; `major<<5 | x` adds, since x is below 32.
unfoldable pub encode_head : (major arg : ℕ) → Bytes
encode_head major arg =
    if ltb arg 24
    then ((major * 32 + arg) ∷ [])
    else if ltb arg (2 ^ 8)
    then ((major * 32 + 24) ∷ put_big_endian 1 arg)
    else if ltb arg (2 ^ 16)
    then ((major * 32 + 25) ∷ put_big_endian 2 arg)
    else if ltb arg (2 ^ 32)
    then ((major * 32 + 26) ∷ put_big_endian 4 arg)
    else ((major * 32 + 27) ∷ put_big_endian 8 arg)

-- `encodeCBORBytes`
unfoldable pub encode_bytes : Bytes → Bytes
encode_bytes b = encode_head 2 (length b) ++ b

-- `encodeCBORText`
unfoldable pub encode_text : Bytes → Bytes
encode_text s = encode_head 3 (length s) ++ s

abbrev pub concat : List Bytes → Bytes
concat [] = []
concat (b ∷ bs) = b ++ concat bs

-- `encodeCBORArray`
unfoldable pub encode_array : List Bytes → Bytes
encode_array items = encode_head 4 (length items) ++ concat items
