-- ===== src/Provenance/Evaluate.antt =====
-- `ExtractC2PA` of internal/modules/provenance/c2pa.go: what is found in an asset, and how far it is to be
-- believed.
use market_place.Prelude.{
  Bool, true, false, if◌then◌else◌, Option, none, some, List, [], ◌∷◌, Result, ok, err, ◌>>=◌,
}
use market_place.Bytes.{Bytes}
use market_place.Provenance.Text
use market_place.Provenance.Ranges.{ByteRange}
use market_place.Provenance.Cbor.Values.{Float, Value}
use market_place.Provenance.Cbor.Access.{lookup_text, as_text, as_array}
use market_place.Provenance.Strict.{StrictError, decode_strict}
use market_place.Provenance.Claim.{same_claim, locate_claim_and_signature, or_empty}
use market_place.Provenance.Container.Store.{Fault, find_manifest_store}
use market_place.Provenance.Cose.Algorithm.{Crypto, AlgorithmName}
use market_place.Provenance.Cose.Message.{CoseFailure, Verdict, verify_cose_sign1, not_empty}
use market_place.Provenance.Binding.{
  Note, not_parsed, no_signature, not_verified, altered, claim_not_parsed, claim_differs, field,
  verify_hard_binding,
}

-- `C2PAResult`; a text that is "" is `none` for the issuer and the algorithm.
pub record C2pa : Type 0 where
  pub present : Bool
  pub intact : Bool
  pub binding_valid : Bool
  pub issuer : Option Bytes
  pub generator : Bytes
  pub alg : Option AlgorithmName
  pub notes : List Note

abbrev pub absent : C2pa
absent = record {
  present = false;
  intact = false;
  binding_valid = false;
  issuer = none;
  generator = [];
  alg = none;
  notes = [];
}

-- A manifest that is there and that is not believed.
abbrev pub doubtful : Option Bytes → Option AlgorithmName → Note → C2pa
doubtful issuer alg note = record {
  present = true;
  intact = false;
  binding_valid = false;
  issuer = issuer;
  generator = [];
  alg = alg;
  notes = note ∷ [];
}

abbrev pub first : Option (List Value) → Option Value
first (some (v ∷ vs)) = some v
first _ = none

abbrev pub named : Option Value → Bytes
named none = []
named (some v) = or_empty (field as_text (lookup_text v Text.name))

abbrev pub info_of : Option Value → Bytes
info_of none = []
info_of (some v) = named (first (as_array v))

-- The generator that a claim names.
unfoldable pub generator_of : Value → Bytes
generator_of claim = elim (lookup_text claim Text.claim_generator) [
  | some v ↦ or_empty (as_text v)
  | none ↦ info_of (lookup_text claim Text.claim_generator_info)
]

-- The manifest's own copy of the claim agrees, when there is one.
abbrev pub agrees : (Value → Bool) → Option Value → Bool
agrees same none = true
agrees same (some stored) = same stored

module _ (same_float : Float → Float → Bool) (crypto : Crypto) where
  -- The signed claim is believed, and bound or not.
  unfoldable pub believe : (asset : Bytes) → List ByteRange → Verdict → (claim : Value) → C2pa
  believe asset ranges d claim =
      let (valid, notes) = verify_hard_binding crypto claim asset ranges in
      record {
        present = true;
        intact = true;
        binding_valid = valid;
        issuer = some (d.signer);
        generator = generator_of claim;
        alg = some (d.signature_alg);
        notes = notes;
      }

  -- The claim in the payload, against the one that the manifest stores.
  unfoldable pub read_claim :
      (asset : Bytes)
      → List ByteRange
      → (stored : Option Value) → Verdict
      → Result StrictError Value
      → C2pa
  read_claim asset ranges stored d (err e) =
      doubtful (some (d.signer)) (some (d.signature_alg)) claim_not_parsed
  read_claim asset ranges stored d (ok claim) =
      if agrees (λ s. same_claim same_float s claim) stored
      then believe asset ranges d claim
      else doubtful (some (d.signer)) (some (d.signature_alg)) claim_differs

  unfoldable pub read_verdict :
      (asset : Bytes) → List ByteRange → (stored : Option Value) → Result CoseFailure Verdict → C2pa
  read_verdict asset ranges stored (err e) = doubtful (e.issuer) (e.alg) not_verified
  read_verdict asset ranges stored (ok d) =
      if d.verified
      then read_claim asset ranges stored d (decode_strict (d.signed_payload))
      else doubtful (some (d.signer)) (some (d.signature_alg)) altered

  unfoldable pub read_signature :
      (asset : Bytes) → List ByteRange → (stored sig : Option Value) → C2pa
  read_signature asset ranges stored none = doubtful none none no_signature
  read_signature asset ranges stored (some sig) =
      read_verdict asset ranges stored (verify_cose_sign1 crypto sig)

  unfoldable pub read_manifest : (asset : Bytes) → List ByteRange → Result StrictError Value → C2pa
  read_manifest asset ranges (err e) = doubtful none none not_parsed
  read_manifest asset ranges (ok manifest) =
      let (stored, sig) = locate_claim_and_signature manifest in
      read_signature asset ranges stored sig

  unfoldable pub read_store : (asset : Bytes) → Option Bytes → List ByteRange → C2pa
  read_store asset none ranges = absent
  read_store asset (some b) ranges = read_manifest asset ranges (decode_strict b)

  -- `ExtractC2PA`
  unfoldable pub extract_c2pa : Bytes → Result Fault C2pa
  extract_c2pa asset = do
    (store, ranges) ← find_manifest_store asset
    ok (read_store asset (not_empty store) ranges)
