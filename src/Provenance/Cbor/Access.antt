-- ===== src/Provenance/Cbor/Access.antt =====
-- The accessors of `cborValue` in internal/modules/provenance/cbor.go.
use market_place.Prelude.{
  ◌≡◌, ap, half_word, ℤ, pos, ◌==ℤ◌, Bool, true, false, if◌then◌else◌, ltb, Option, none, some,
  List, [], ◌∷◌,
}
use market_place.Bytes.{Bytes, equal, equal_sound}
use market_place.Provenance.Cbor.Values.{
  Value, uint, neg_int, bytes, text, array, map, tag, Values, nil, cons, Pairs, empty, pair,
}

-- Whether a key is the integer that is looked up.
abbrev pub is_label : Value → ℤ → Bool
is_label (uint n) label = pos n ==ℤ label
is_label (neg_int z) label = z ==ℤ label
is_label _ label = false

unfoldable pub lookup_pairs : Pairs → ℤ → Option Value
lookup_pairs empty label = none
lookup_pairs (pair k v ps) label =
    let rest = lookup_pairs ps label in if is_label k label then some v else rest

-- `lookup`
unfoldable pub lookup : Value → ℤ → Option Value
lookup (map ps) label = lookup_pairs ps label
lookup _ label = none

-- `asText`
unfoldable pub as_text : Value → Option Bytes
as_text (text s) = some s
as_text _ = none

-- Whether a key's text is the one that is looked up.
abbrev pub is_text : Option Bytes → Bytes → Bool
is_text none key = false
is_text (some s) key = equal s key

unfoldable pub lookup_text_pairs : Pairs → Bytes → Option Value
lookup_text_pairs empty key = none
lookup_text_pairs (pair k v ps) key =
    let rest = lookup_text_pairs ps key in if is_text (as_text k) key then some v else rest

-- `lookupText`
unfoldable pub lookup_text : Value → Bytes → Option Value
lookup_text (map ps) key = lookup_text_pairs ps key
lookup_text _ key = none

-- `asBytes`
unfoldable pub as_bytes : Value → Option Bytes
as_bytes (bytes b) = some b
as_bytes _ = none

-- `asInt`, which refuses what an int64 cannot hold.
unfoldable pub as_int : Value → Option ℤ
as_int (uint n) = if ltb n half_word then some (pos n) else none
as_int (neg_int z) = some z
as_int _ = none

-- `untag`
unfoldable pub untag : Value → Value
untag (tag n v) = untag v
untag v = v

-- The items of a value that is an array.
abbrev pub items : Values → List Value
items nil = []
items (cons v vs) = v ∷ items vs

unfoldable pub as_array : Value → Option (List Value)
as_array (array vs) = some (items vs)
as_array _ = none

pub is_text_sound : (o : Option Bytes) (key : Bytes) → is_text o key ≡ true → o ≡ some key
is_text_sound none key e = absurd (cc)
is_text_sound (some s) key e = ap (λ t. some t) (equal_sound s key e)
