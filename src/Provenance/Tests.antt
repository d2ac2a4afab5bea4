-- ===== src/Provenance/Tests.antt =====
-- Content Credentials in a small PNG, by internal/modules/provenance.
use market_place.Prelude.{
  ℕ, ◌<◌, ◌≤◌, ◌≡◌, refl, Bool, true, false, none, some, List, [], ◌∷◌, ◌++◌, ◌-ℤ◌, ◌+ℤ◌, ◌&&◌, ◌⊎◌,
  suc, length, Option, All, ok, err, ◌↔◌, arith,
}
use market_place.Bytes.{Bytes}
use market_place.Provenance.Ranges.{
  ByteRange, AreApart, exclude_from, exclude_ranges, outside, exclude_ranges-outside,
}
use market_place.Provenance.Cbor.Values.{
  Float, Value, text, uint, array, map, nil, cons, Pairs, empty, pair, weight, depth,
}
use market_place.Provenance.Cbor.Access.{
  lookup, lookup_pairs, lookup_text, lookup_text_pairs, as_bytes, as_text, as_int, as_array, untag,
}
use market_place.Provenance.Cbor.Decode.{
  decode, decode_argument, decode_at, decode_body, decode_items, decode_pairs, major_of,
  check_count,
}
use market_place.Provenance.Cbor.Bounds.{decode_bounds}
use market_place.Provenance.Strict.{all_zero, decode_strict, decode_strict_iff, IsPadded}
use market_place.Provenance.Claim.{
  same_claim, note_entry, locate_in, locate_claim_and_signature, size,
}
use market_place.Provenance.Container.Scan.{search}
use market_place.Provenance.Container.Jumbf.{box_size, jumbf_step, walk_jumbf, unwrap_jumbf}
use market_place.Provenance.Container.Store.{
  slice_bounds, IsPiece, IsLocated, png_step, bmff_step, uuid_box, find_png_manifest,
  find_bmff_manifest, find_manifest_store, find_manifest_store-IsLocated, c2pa_uuid,
}
use market_place.Provenance.Cose.Algorithm.{
  Crypto, Certificate, ed25519_key, algorithm, cose_alg_name, certificate_subject, verify_with,
  verify_signature, ed_dsa_name,
}
use market_place.Provenance.Cose.Message.{
  sig_structure, chain_of, find_x5chain, unwrap_message, protected_headers, sign1, header_algorithm,
  verify_message, verify_cose_sign1,
}
use market_place.Provenance.Cose.Binds.{sig_structure_injective}
use market_place.Provenance.Binding.{
  contains, binding_hash, assertions_of, check_bindings, verify_hard_binding, Binds,
}
use market_place.Provenance.Evaluate.{
  C2pa, generator_of, believe, read_claim, read_verdict, read_signature, read_manifest, read_store,
  extract_c2pa,
}
use market_place.Provenance.Assess.{
  Signals, no_ai, publish, is_declared, declares_ai, credentials, tool, conflicts_of, evidence,
  moved, clamp, none_of, assess,
}
use market_place.Provenance.Routed.{assess_publish}
use market_place.Provenance.Trusted.{IsTrusted, extract_c2pa-Binds}

-- A map with one entry, `signature`: a COSE_Sign1 with its headers, payload and signature.
abbrev manifest : Bytes
manifest =
    161 ∷ 105 ∷ 115 ∷ 105 ∷ 103 ∷ 110 ∷ 97 ∷ 116 ∷ 117 ∷ 114 ∷ 101 ∷ 132 ∷ 71 ∷ 162 ∷ 1 ∷ 39 ∷ 24
    ∷ 33 ∷ 65 ∷ 9 ∷ 160 ∷ 88 ∷ 41 ∷ 161 ∷ 106 ∷ 97 ∷ 115 ∷ 115 ∷ 101 ∷ 114 ∷ 116 ∷ 105 ∷ 111 ∷ 110
    ∷ 115 ∷ 129 ∷ 162 ∷ 99 ∷ 117 ∷ 114 ∷ 108 ∷ 110 ∷ 99 ∷ 50 ∷ 112 ∷ 97 ∷ 46 ∷ 104 ∷ 97 ∷ 115 ∷ 104
    ∷ 46 ∷ 100 ∷ 97 ∷ 116 ∷ 97 ∷ 100 ∷ 104 ∷ 97 ∷ 115 ∷ 104 ∷ 66 ∷ 1 ∷ 2 ∷ 65 ∷ 5 ∷ []

abbrev ending : Bytes
ending = 0 ∷ 0 ∷ 0 ∷ 0 ∷ 0 ∷ 0 ∷ 0 ∷ 0 ∷ 73 ∷ 69 ∷ 78 ∷ 68 ∷ 1 ∷ 2 ∷ 3 ∷ 4 ∷ []

-- A PNG of two chunks: the manifest, and the end.
abbrev asset : Bytes
asset =
    137
    ∷ 80
    ∷ 78
    ∷ 71
    ∷ 13
    ∷ 10
    ∷ 26
    ∷ 10
    ∷ 0
    ∷ 0
    ∷ 0
    ∷ 66
    ∷ 99
    ∷ 97
    ∷ 66
    ∷ 88
    ∷ (manifest ++ ending)

abbrev certificate : Certificate
certificate = record {
  public_key = ed25519_key [];
  common_name = 65 ∷ [];
  organization = [];
  subject = [];
}

-- A cryptography with one key and one digest, to which every Ed25519 signature is valid.
abbrev trusting : Crypto
trusting = record {
  parse_certificate = λ der. some certificate;
  sum = λ hash b. 1 ∷ 2 ∷ [];
  ecdsa_verify = λ key digest r s. false;
  parse_asn1 = λ signature. none;
  rsa_verify_pss = λ key hash digest signature. false;
  rsa_verify_pkcs1 = λ key hash digest signature. false;
  ed25519_verify = λ key signed signature. true;
}

abbrev no_floats : Float → Float → Bool
no_floats x y = false

abbrev protected_bytes : Bytes
protected_bytes = 162 ∷ 1 ∷ 39 ∷ 24 ∷ 33 ∷ 65 ∷ 9 ∷ []

abbrev payload : Bytes
payload =
    161 ∷ 106 ∷ 97 ∷ 115 ∷ 115 ∷ 101 ∷ 114 ∷ 116 ∷ 105 ∷ 111 ∷ 110 ∷ 115 ∷ 129 ∷ 162 ∷ 99 ∷ 117
    ∷ 114 ∷ 108 ∷ 110 ∷ 99 ∷ 50 ∷ 112 ∷ 97 ∷ 46 ∷ 104 ∷ 97 ∷ 115 ∷ 104 ∷ 46 ∷ 100 ∷ 97 ∷ 116 ∷ 97
    ∷ 100 ∷ 104 ∷ 97 ∷ 115 ∷ 104 ∷ 66 ∷ 1 ∷ 2 ∷ []

abbrev result : C2pa
result = record {
  present = true;
  intact = true;
  binding_valid = true;
  issuer = some (65 ∷ []);
  generator = [];
  alg = some ed_dsa_name;
  notes = [];
}

extracted : extract_c2pa no_floats trusting asset ≡ ok result
unfolding extract_c2pa find_manifest_store find_png_manifest search png_step unwrap_jumbf walk_jumbf
    jumbf_step box_size read_store read_manifest read_signature read_verdict read_claim believe
    decode_strict decode_at decode_argument decode_body decode_items decode_pairs major_of
    check_count locate_claim_and_signature locate_in note_entry verify_cose_sign1 unwrap_message
    sign1 untag as_array as_bytes as_text as_int lookup lookup_pairs lookup_text lookup_text_pairs
    protected_headers header_algorithm verify_message find_x5chain chain_of verify_signature
    verify_with algorithm cose_alg_name certificate_subject generator_of verify_hard_binding
    assertions_of check_bindings binding_hash contains exclude_ranges exclude_from sig_structure
    all_zero ◌-ℤ◌
extracted = refl

-- The range that the chunk takes up.
abbrev chunk : List ByteRange
chunk = record { start = 8; len = 78 } ∷ []

chunk-AreApart : AreApart 0 chunk (length asset)
unfolding AreApart
chunk-AreApart = (omega arith, omega arith)

-- A box `uuid` of 16 bytes with the identifier behind it: the slice's bounds are out of order.
abbrev short_box : Bytes
short_box =
    0 ∷ 0 ∷ 0 ∷ 8 ∷ 102 ∷ 116 ∷ 121 ∷ 112 ∷ 0 ∷ 0 ∷ 0 ∷ 16 ∷ 117 ∷ 117 ∷ 105 ∷ 100 ∷ c2pa_uuid

short_box_panics : find_manifest_store short_box ≡ err slice_bounds
unfolding find_manifest_store find_bmff_manifest search bmff_step box_size uuid_box
short_box_panics = refl

-- A stored claim with the same entry twice agrees with a signed one that has another entry.
abbrev x_twice : Pairs
x_twice = pair (text (120 ∷ [])) (uint 1) (pair (text (120 ∷ [])) (uint 1) empty)

abbrev x_and_y : Pairs
x_and_y = pair (text (120 ∷ [])) (uint 1) (pair (text (121 ∷ [])) (uint 2) empty)

twice_agrees : same_claim no_floats (map x_twice) (map x_and_y) ≡ true
unfolding same_claim lookup_text_pairs as_text size
twice_agrees = refl

x_found : lookup_text (map x_twice) (120 ∷ []) ≡ some (uint 1)
unfolding lookup_text lookup_text_pairs as_text
x_found = refl

-- An array of a number and a text, and what is read of it.
abbrev two_items : Bytes
two_items = 0x82 ∷ 7 ∷ 0x61 ∷ 65 ∷ []

abbrev two_values : Value
two_values = array (cons (uint 7) (cons (text (65 ∷ [])) nil))

two_items_decoded : decode two_items ≡ ok (two_values, 4)
unfolding decode_at decode_argument decode_body decode_items major_of check_count
two_items_decoded = refl

two_items_strictly : decode_strict two_items ≡ ok two_values
unfolding decode_strict decode_at decode_argument decode_body decode_items major_of check_count
    all_zero
two_items_strictly = refl

extract_c2pa-Binds_example :
    (claim : Value) × (ranges : List ByteRange) × IsTrusted no_floats trusting asset claim ranges
    × All (IsPiece asset) ranges
    × Binds claim (1 ∷ 2 ∷ [])
extract_c2pa-Binds_example = extract_c2pa-Binds no_floats trusting asset result extracted refl

sig_structure_injective_example : (protected_bytes ≡ protected_bytes) × (payload ≡ payload)
sig_structure_injective_example =
    sig_structure_injective protected_bytes payload protected_bytes payload (omega arith)
      (omega arith) (omega arith) (omega arith) refl

find_manifest_store-IsLocated_example :
    IsLocated asset (find_manifest_store asset)
    × ((r : Option Bytes) × (walk_jumbf 17 asset ≡ r)
        × (search (jumbf_step (walk_jumbf 16) asset) (suc (length asset)) 0 ≡ some r))
find_manifest_store-IsLocated_example = find_manifest_store-IsLocated asset 16 asset

exclude_ranges-outside_example : exclude_ranges asset chunk ≡ outside chunk 0 asset
exclude_ranges-outside_example = exclude_ranges-outside asset chunk chunk-AreApart

decode_bounds_example :
    (0 < 4)
    × (4 ≤ 4)
    × (weight two_values ≤ 4)
    × (depth two_values ≤ 33)
    × (decode (two_items ++ (1 ∷ [])) ≡ ok (two_values, 4))
decode_bounds_example = decode_bounds two_items (1 ∷ []) two_items_decoded

decode_strict_iff_example :
    (decode_strict two_items ≡ ok two_values) ↔ ((n : ℕ) × IsPadded two_items two_values n)
decode_strict_iff_example = decode_strict_iff two_items two_values

-- An asset with nothing in it but editable source.
abbrev layered : Signals
layered = record {
  c2pa_present = false;
  c2pa_intact = false;
  c2pa_binding_valid = false;
  c2pa_issuer = [];
  generator_hint = [];
  generator_hint_indicates_ai = false;
  has_source_project = true;
  source_project_kinds = [];
  remarks = [];
}

layered_published : (assess no_ai layered).routing ≡ publish
unfolding assess evidence credentials tool moved clamp conflicts_of is_declared declares_ai ◌+ℤ◌
layered_published = refl

assess_publish_example :
    (is_declared no_ai ≡ true)
    × (none_of (conflicts_of no_ai layered) ≡ true)
    × ((true ≡ true) ⊎ ((false && false) ≡ true))
assess_publish_example = assess_publish no_ai layered layered_published
