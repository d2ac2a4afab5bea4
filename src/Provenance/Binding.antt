-- ===== src/Provenance/Binding.antt =====
-- The hard binding of a claim to the bytes of an asset: `verifyHardBinding` of
-- internal/modules/provenance/c2pa.go.
use market_place.Prelude.{
  ◌≡◌, refl, sym, ap, ◌∙◌, arith, Bool, true, false, ◌||◌, if◌then◌else◌, Option, none, some, List,
  [], ◌∷◌,
}
use market_place.Bytes.{Bytes, equal, equal_sound, has_prefix}
use market_place.Provenance.Text
use market_place.Provenance.Ranges.{ByteRange, exclude_ranges}
use market_place.Provenance.Cbor.Values.{Value}
use market_place.Provenance.Cbor.Access.{lookup_text, as_bytes, as_text, as_array}
use market_place.Provenance.Claim.{or_empty}
use market_place.Provenance.Cose.Algorithm.{Crypto, sha256}
use market_place.Provenance.Cose.Message.{not_empty}

-- `strings.Contains`
unfoldable pub contains : (b part : Bytes) → Bool
contains [] part = has_prefix [] part
contains (x ∷ b) part = has_prefix (x ∷ b) part || contains b part

-- What could not be checked, and why.
pub data Note : Type 0 where
  not_parsed no_signature not_verified altered claim_not_parsed claim_differs no_assertions
        other_asset no_hard_binding :
      Note

-- A field of a map, or nothing where it is missing or the value is no map.
abbrev pub field : (Value → Option Bytes) → Option Value → Option Bytes
field get none = none
field get (some v) = get v

-- The hash in an assertion, when the assertion is a hard binding and has one.
unfoldable pub binding_hash : Value → Option Bytes
binding_hash a =
    let name = or_empty (field as_text (lookup_text a Text.url)) in
    if contains name Text.hash_data || contains name Text.hash_boxes
    then not_empty (field as_bytes (lookup_text a Text.hash))
    else none

-- The assertions of a claim, under either of their names.
unfoldable pub assertions_of : Value → Option Value
assertions_of claim = elim (lookup_text claim Text.assertions) [
  | some v ↦ some v
  | none ↦ lookup_text claim Text.created_assertions
]

-- The verdict on the first hard binding.
abbrev pub compared : Bool → Bool × List Note
compared true = (true, [])
compared false = (false, (other_asset ∷ []))

compared-true : (b : Bool) → (compared b).0 ≡ true → b ≡ true
compared-true b e = ground arith

-- A claim's assertions hold a hash, in one that is a hard binding.
pub data HasHash (hash : Bytes) : List Value → Type 0 where
  here : {a : Value} {items : List Value} → binding_hash a ≡ some hash → HasHash hash (a ∷ items)
  later : {a : Value} {items : List Value} → HasHash hash items → HasHash hash (a ∷ items)

pub data Binds (claim : Value) (hash : Bytes) : Type 0 where
  binds :
      (v : Value) (items : List Value)
      → assertions_of claim ≡ some v
      → as_array v ≡ some items
      → HasHash hash items
      → Binds claim hash

-- One assertion: it decides, when it is a hard binding with a hash, or else the rest does.
abbrev pub decide : Option Bytes → (got : Bytes) → (rest : Bool × List Note) → Bool × List Note
decide none got rest = rest
decide (some want) got rest = compared (equal got want)

module _ (crypto : Crypto) where
  -- The loop over the assertions: the first hard binding decides.
  unfoldable pub check_bindings : List Value → (asset : Bytes) → List ByteRange → Bool × List Note
  check_bindings [] asset ranges = (false, (no_hard_binding ∷ []))
  check_bindings (a ∷ items) asset ranges =
      decide (binding_hash a) (crypto.sum sha256 (exclude_ranges asset ranges))
        (check_bindings items asset ranges)

  abbrev pub check_array : Option (List Value) → (asset : Bytes) → List ByteRange → Bool × List Note
  check_array none asset ranges = (false, [])
  check_array (some items) asset ranges = check_bindings items asset ranges

  abbrev pub check_assertions : Option Value → (asset : Bytes) → List ByteRange → Bool × List Note
  check_assertions none asset ranges = (false, (no_assertions ∷ []))
  check_assertions (some v) asset ranges = check_array (as_array v) asset ranges

  -- `verifyHardBinding`, with the notes that it adds.
  unfoldable pub verify_hard_binding :
      (claim : Value) → (asset : Bytes) → List ByteRange → Bool × List Note
  verify_hard_binding claim asset ranges = check_assertions (assertions_of claim) asset ranges

  decide-HasHash :
      (o : Option Bytes) (a : Value) (items : List Value) (got : Bytes) (rest : Bool × List Note)
      → binding_hash a ≡ o
      → (rest.0 ≡ true → HasHash got items)
      → (decide o got rest).0 ≡ true
      → HasHash got (a ∷ items)
  decide-HasHash none a items got rest found h e = later (h e)
  decide-HasHash (some want) a items got rest found h e =
      let same : got ≡ want = equal_sound got want (compared-true (equal got want) e) in
      here (found ∙ ap (λ w. some w) (sym same))

  check_bindings-HasHash :
      (items : List Value) (asset : Bytes) (ranges : List ByteRange)
      → (check_bindings items asset ranges).0 ≡ true
      → HasHash (crypto.sum sha256 (exclude_ranges asset ranges)) items
  unfolding check_bindings
  check_bindings-HasHash [] asset ranges e = absurd (cc)
  check_bindings-HasHash (a ∷ items) asset ranges e =
      decide-HasHash (binding_hash a) a items (crypto.sum sha256 (exclude_ranges asset ranges))
        (check_bindings items asset ranges) refl (check_bindings-HasHash items asset ranges) e

  check_array-Binds :
      (o : Option (List Value)) (claim v : Value) (asset : Bytes) (ranges : List ByteRange)
      → assertions_of claim ≡ some v
      → as_array v ≡ o
      → (check_array o asset ranges).0 ≡ true
      → Binds claim (crypto.sum sha256 (exclude_ranges asset ranges))
  check_array-Binds none claim v asset ranges found listed e = absurd (cc)
  check_array-Binds (some items) claim v asset ranges found listed e =
      binds v items found listed (check_bindings-HasHash items asset ranges e)

  check_assertions-Binds :
      (o : Option Value) (claim : Value) (asset : Bytes) (ranges : List ByteRange)
      → assertions_of claim ≡ o
      → (check_assertions o asset ranges).0 ≡ true
      → Binds claim (crypto.sum sha256 (exclude_ranges asset ranges))
  check_assertions-Binds none claim asset ranges found e = absurd (cc)
  check_assertions-Binds (some v) claim asset ranges found e =
      check_array-Binds (as_array v) claim v asset ranges found refl e

  -- A valid binding: some assertion of the claim holds the SHA-256 of the asset less the ranges.
  pub verify_hard_binding-Binds :
      (claim : Value) (asset : Bytes) (ranges : List ByteRange)
      → (verify_hard_binding claim asset ranges).0 ≡ true
      → Binds claim (crypto.sum sha256 (exclude_ranges asset ranges))
  unfolding verify_hard_binding
  verify_hard_binding-Binds claim asset ranges e =
      check_assertions-Binds (assertions_of claim) claim asset ranges refl e
