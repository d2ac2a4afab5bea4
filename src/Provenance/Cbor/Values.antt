-- ===== src/Provenance/Cbor/Values.antt =====
-- The items of internal/modules/provenance/cbor.go. `cborValue` is a struct with a kind; here each
-- kind is a constructor with the fields that go with it. A float is its bits, single or double,
-- before the conversion to `float64`.
use Prim.Native.Nat.{max}
use market_place.Prelude.{ℕ, suc, ◌+◌, ℤ, Bool, List, [], ◌∷◌, length}
use market_place.Bytes.{Bytes}

pub data Float : Type 0 where
  single double : ℕ → Float

mutual
  pub data Value : Type 0 where
    uint : ℕ → Value
    neg_int : ℤ → Value
    bytes text : Bytes → Value
    array : Values → Value
    map : Pairs → Value
    tag : ℕ → Value → Value
    boolean : Bool → Value
    null undefined : Value
    float : Float → Value

  pub data Values : Type 0 where
    nil : Values
    cons : Value → Values → Values

  -- `mapKeys` and `mapVals`, side by side.
  pub data Pairs : Type 0 where
    empty : Pairs
    pair : (key val : Value) → Pairs → Pairs

pub data CborError : Type 0 where
  truncated nesting unsupported : CborError

abbrev pub count : Values → ℕ
count nil = 0
count (cons v vs) = suc (count vs)

abbrev pub values : List Value → Values
values [] = nil
values (v ∷ vs) = cons v (values vs)

-- How many items and bytes of strings a value holds.
unfoldable mutual
  pub weight : Value → ℕ
  weight (bytes b) = 1 + length b
  weight (text b) = 1 + length b
  weight (array vs) = 1 + weights vs
  weight (map ps) = 1 + weights_of_pairs ps
  weight (tag n v) = 1 + weight v
  weight _ = 1

  pub weights : Values → ℕ
  weights nil = 0
  weights (cons v vs) = weight v + weights vs

  pub weights_of_pairs : Pairs → ℕ
  weights_of_pairs empty = 0
  weights_of_pairs (pair k v ps) = weight k + (weight v + weights_of_pairs ps)

-- How deep a value is nested.
unfoldable mutual
  pub depth : Value → ℕ
  depth (array vs) = 1 + depths vs
  depth (map ps) = 1 + depths_of_pairs ps
  depth (tag n v) = 1 + depth v
  depth _ = 1

  pub depths : Values → ℕ
  depths nil = 0
  depths (cons v vs) = max (depth v) (depths vs)

  pub depths_of_pairs : Pairs → ℕ
  depths_of_pairs empty = 0
  depths_of_pairs (pair k v ps) = max (depth k) (max (depth v) (depths_of_pairs ps))
