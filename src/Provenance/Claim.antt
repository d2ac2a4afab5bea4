-- ===== src/Provenance/Claim.antt =====
-- Comparing claims, and finding them: `sameClaim` and `locateClaimAndSignature` of internal/modules/provenance/c2pa.go.
use market_place.Prelude.{
  ℕ, suc, ◌-◌, ◌≡◌, refl, sym, ap, ◌∙◌, subst, inl, inr, Bool-cases, Bool, true, false, ◌&&◌, ◌||◌,
  if◌then◌else◌, both_true, leb, ◌==◌, ◌==ℤ◌, Option, none, some, [], length, drop,
}
use market_place.Bytes.{Bytes, equal}
use market_place.Provenance.Cbor.Values.{
  Float, Value, uint, neg_int, bytes, text, array, map, tag, boolean, null, undefined, float,
  Values, nil, cons, Pairs, empty, pair,
}
use market_place.Provenance.Cbor.Access.{
  lookup_text, lookup_text_pairs, as_text, is_text, is_text_sound,
}
use market_place.Provenance.Text

abbrev pub same_bool : Bool → Bool → Bool
same_bool true true = true
same_bool false false = true
same_bool _ _ = false

-- How many entries a map has.
unfoldable pub size : Pairs → ℕ
size empty = 0
size (pair k v ps) = suc (size ps)

-- Whether a text key is found, with a value that passes.
abbrev pub found_alike : Option Value → (Value → Bool) → Bool
found_alike none alike = false
found_alike (some other) alike = alike other

-- A text key is looked up, another key is compared by its place.
abbrev pub by_key : Option Bytes → (Bytes → Bool) → Bool → Bool
by_key none looked_up in_place = in_place
by_key (some name) looked_up in_place = looked_up name

-- The equality of float64 is a parameter: floats are kept as their bits.
module _ (same_float : Float → Float → Bool) where
  -- `sameClaim`. The loop over the entries of a map looks a text key up in the other map, `whole`, and
  -- compares another key with the entry in the same place, the first of `others`.
  unfoldable mutual
    pub same_claim : Value → Value → Bool
    same_claim (map ps) (map whole) = (size ps == size whole) && same_pairs ps whole whole
    same_claim (array vs) (array ws) = same_items vs ws
    same_claim (bytes a) (bytes b) = equal a b
    same_claim (text a) (text b) = equal a b
    same_claim (uint m) (uint n) = m == n
    same_claim (neg_int y) (neg_int z) = y ==ℤ z
    same_claim (boolean a) (boolean b) = same_bool a b
    same_claim (float x) (float y) = same_float x y
    same_claim (tag m v) (tag n w) = (m == n) && same_claim v w
    same_claim null null = true
    same_claim undefined undefined = true
    same_claim _ _ = false

    -- The lengths are compared first in the source.
    pub same_items : Values → Values → Bool
    same_items nil nil = true
    same_items (cons v vs) (cons w ws) = same_claim v w && same_items vs ws
    same_items _ _ = false

    pub same_pairs : Pairs → (others whole : Pairs) → Bool
    same_pairs empty others whole = true
    same_pairs (pair k v ps) (pair l w others) whole =
        by_key (as_text k)
          (λ name. found_alike (lookup_text_pairs whole name) (λ other. same_claim v other))
          (same_claim k l && same_claim v w)
        && same_pairs ps others whole
    same_pairs (pair k v ps) empty whole = false

  found_alike_lem :
      (o : Option Value) (v : Value)
      → found_alike o (λ other. same_claim v other) ≡ true
      → (w : Value) × (o ≡ some w) × (same_claim v w ≡ true)
  found_alike_lem none v e = absurd (cc)
  found_alike_lem (some w) v e = (w, refl, e)

  same_pairs-lookup :
      (ps others whole : Pairs) (key : Bytes) (v : Value)
      → same_pairs ps others whole ≡ true
      → lookup_text_pairs ps key ≡ some v
      → (w : Value) × (lookup_text_pairs whole key ≡ some w) × (same_claim v w ≡ true)
  unfolding same_pairs lookup_text_pairs
  same_pairs-lookup empty others whole key v e found = absurd (cc)
  same_pairs-lookup (pair k u ps) empty whole key v e found = absurd (cc)
  same_pairs-lookup (pair k u ps) (pair l w others) whole key v e found =
      let alike : Bytes → Bool =
        λ name. found_alike (lookup_text_pairs whole name) (λ other. same_claim u other) in
      let (this, rest) =
        both_true (by_key (as_text k) alike (same_claim k l && same_claim u w))
          (same_pairs ps others whole) e in
      elim (Bool-cases (is_text (as_text k) key)) [
        | inl here ↦
            let looked : by_key (as_text k) alike (same_claim k l && same_claim u w) ≡ alike key =
              ap (λ o. by_key o alike (same_claim k l && same_claim u w))
                (is_text_sound (as_text k) key here) in
            let same : u ≡ v = cc in
            subst
              (λ v. (w : Value) × (lookup_text_pairs whole key ≡ some w) × (same_claim v w ≡ true))
              same (found_alike_lem (lookup_text_pairs whole key) u (sym looked ∙ this))
        | inr other ↦ same_pairs-lookup ps others whole key v rest (rw (other) at found)
      ]

  -- Every text entry of a stored claim that compares the same is in the other claim, where the
  -- first entry with that key compares the same too.
  same_claim-lookup_text :
      (stored signed : Value) (key : Bytes) (v : Value)
      → same_claim stored signed ≡ true
      → lookup_text stored key ≡ some v
      → (w : Value) × (lookup_text signed key ≡ some w) × (same_claim v w ≡ true)
  unfolding lookup_text same_claim
  same_claim-lookup_text (map ps) (map whole) key v e found =
      let (_, pairs) = both_true _ _ e in same_pairs-lookup ps whole whole key v pairs found
  same_claim-lookup_text (map ps) (uint _) key v e found = absurd (cc)
  same_claim-lookup_text (map ps) (neg_int _) key v e found = absurd (cc)
  same_claim-lookup_text (map ps) (bytes _) key v e found = absurd (cc)
  same_claim-lookup_text (map ps) (text _) key v e found = absurd (cc)
  same_claim-lookup_text (map ps) (array _) key v e found = absurd (cc)
  same_claim-lookup_text (map ps) (tag _ _) key v e found = absurd (cc)
  same_claim-lookup_text (map ps) (boolean _) key v e found = absurd (cc)
  same_claim-lookup_text (map ps) null key v e found = absurd (cc)
  same_claim-lookup_text (map ps) undefined key v e found = absurd (cc)
  same_claim-lookup_text (map ps) (float _) key v e found = absurd (cc)
  same_claim-lookup_text (uint _) signed key v e found = absurd (cc)
  same_claim-lookup_text (neg_int _) signed key v e found = absurd (cc)
  same_claim-lookup_text (bytes _) signed key v e found = absurd (cc)
  same_claim-lookup_text (text _) signed key v e found = absurd (cc)
  same_claim-lookup_text (array _) signed key v e found = absurd (cc)
  same_claim-lookup_text (tag _ _) signed key v e found = absurd (cc)
  same_claim-lookup_text (boolean _) signed key v e found = absurd (cc)
  same_claim-lookup_text null signed key v e found = absurd (cc)
  same_claim-lookup_text undefined signed key v e found = absurd (cc)
  same_claim-lookup_text (float _) signed key v e found = absurd (cc)

-- A claim and a signature, as far as they have been found.
abbrev pub Located : Type 0
Located = Option Value × Option Value

abbrev present : Option Value → Bool
present none = false
present (some v) = true

-- `strings.HasSuffix`
abbrev pub has_suffix : (b suffix : Bytes) → Bool
has_suffix b suffix =
    leb (length suffix) (length b) && equal (drop (length b - length suffix) b) suffix

-- A name that is not a text is "".
abbrev pub or_empty : Option Bytes → Bytes
or_empty none = []
or_empty (some b) = b

-- What the name of an entry makes of its value.
unfoldable pub note_entry : (name : Bytes) → Value → Located → Located
note_entry name v (claim, sig) =
    if has_suffix name Text.c2pa_claim || equal name Text.claim
    then (some v, sig)
    else if has_suffix name Text.c2pa_signature
        || (equal name Text.claim_signature || equal name Text.signature)
    then (claim, some v)
    else (claim, sig)

abbrev pub stopped : (levels : ℕ) → Located → Bool
stopped levels (claim, sig) = (levels == 0) || (present claim && present sig)

-- The walk of `locateClaimAndSignature`, with the levels that are left.
unfoldable mutual
  pub locate_in : Value → (levels : ℕ) → Located → Located
  locate_in (map ps) levels at =
      let inner = locate_in_pairs ps (levels - 1) at in if stopped levels at then at else inner
  locate_in (array vs) levels at =
      let inner = locate_in_items vs (levels - 1) at in if stopped levels at then at else inner
  locate_in (tag n v) levels at =
      let inner = locate_in v (levels - 1) at in if stopped levels at then at else inner
  locate_in v levels at = at

  pub locate_in_items : Values → (levels : ℕ) → Located → Located
  locate_in_items nil levels at = at
  locate_in_items (cons v vs) levels at = locate_in_items vs levels (locate_in v levels at)

  pub locate_in_pairs : Pairs → (levels : ℕ) → Located → Located
  locate_in_pairs empty levels at = at
  locate_in_pairs (pair k v ps) levels at =
      locate_in_pairs ps levels (locate_in v levels (note_entry (or_empty (as_text k)) v at))

-- `locateClaimAndSignature`, to a depth of `maxCBORNesting`.
unfoldable pub locate_claim_and_signature : Value → Located
locate_claim_and_signature v = locate_in v 33 (none, none)
