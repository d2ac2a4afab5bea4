-- ===== src/Provenance/Trusted.antt =====
-- What `ExtractC2PA`, of internal/modules/provenance/c2pa.go, has established when it calls a manifest
-- intact, and when it calls its binding valid.
use market_place.Prelude.{
  ◌≡◌, refl, if_elim, Bool, true, false, Option, none, some, List, [], Result, ok, err, Ends,
  Ends-ok, Ends-result, bind-Ends, returns, length, All,
}
use market_place.Bytes.{Bytes}
use market_place.Provenance.Ranges.{ByteRange, AreApart, outside, exclude_ranges-outside}
use market_place.Provenance.Cbor.Values.{Float, Value}
use market_place.Provenance.Strict.{StrictError, decode_strict}
use market_place.Provenance.Claim.{same_claim, locate_claim_and_signature}
use market_place.Provenance.Container.Store.{
  IsPiece, find_manifest_store, find_manifest_store-IsLocated,
}
use market_place.Provenance.Cose.Algorithm.{Crypto, sha256}
use market_place.Provenance.Cose.Message.{CoseFailure, Verdict, verify_cose_sign1, not_empty}
use market_place.Provenance.Cose.Verified.{IsSigned, verify_cose_sign1-IsSigned}
use market_place.Provenance.Binding.{Binds, verify_hard_binding-Binds}
use market_place.Provenance.Evaluate.{
  C2pa, agrees, believe, read_claim, read_verdict, read_signature, read_manifest, read_store,
  extract_c2pa,
}

module _ (same_float : Float → Float → Bool) (crypto : Crypto) where
  -- The manifest in the asset and the signature in the manifest; the verdict, which the cryptography
  -- gives over the payload; and the claim in the payload, with which the manifest's own agrees.
  pub data IsTrusted (asset : Bytes) (claim : Value) (ranges : List ByteRange) : Type 0 where
    trusted :
        (store : Option Bytes) (b : Bytes) (manifest sig : Value) (stored : Option Value)
        (d : Verdict)
        → find_manifest_store asset ≡ ok (store, ranges)
        → not_empty store ≡ some b
        → decode_strict b ≡ ok manifest
        → locate_claim_and_signature manifest ≡ (stored, some sig)
        → IsSigned crypto sig d
        → d.verified ≡ true
        → decode_strict (d.signed_payload) ≡ ok claim
        → agrees (λ s. same_claim same_float s claim) stored ≡ true
        → IsTrusted asset claim ranges

  -- A result that trusts nothing, or one for a claim that is trusted.
  data IsJudged (asset : Bytes) : C2pa → Type 0 where
    doubted : {r : C2pa} → r.intact ≡ false → r.binding_valid ≡ false → IsJudged asset r
    believed :
        (claim : Value) (ranges : List ByteRange) (d : Verdict)
        → IsTrusted asset claim ranges
        → IsJudged asset (believe same_float crypto asset ranges d claim)

  read_claim-IsJudged :
      (asset : Bytes) (ranges : List ByteRange) (stored : Option Value) (d : Verdict)
      (read : Result StrictError Value)
      → ((claim : Value)
          → read ≡ ok claim
          → agrees (λ s. same_claim same_float s claim) stored ≡ true
          → IsTrusted asset claim ranges)
      → IsJudged asset (read_claim same_float crypto asset ranges stored d read)
  unfolding read_claim
  read_claim-IsJudged asset ranges stored d (err e) trust = doubted refl refl
  read_claim-IsJudged asset ranges stored d (ok claim) trust =
      if_elim (IsJudged asset) (agrees (λ s. same_claim same_float s claim) stored)
        (λ alike. believed claim ranges d (trust claim refl alike)) (λ _. doubted refl refl)

  read_verdict-IsJudged :
      (asset : Bytes) (ranges : List ByteRange) (stored : Option Value)
      (verdict : Result CoseFailure Verdict)
      → ((d : Verdict) (claim : Value)
          → verdict ≡ ok d
          → d.verified ≡ true
          → decode_strict (d.signed_payload) ≡ ok claim
          → agrees (λ s. same_claim same_float s claim) stored ≡ true
          → IsTrusted asset claim ranges)
      → IsJudged asset (read_verdict same_float crypto asset ranges stored verdict)
  unfolding read_verdict
  read_verdict-IsJudged asset ranges stored (err e) trust = doubted refl refl
  read_verdict-IsJudged asset ranges stored (ok d) trust =
      if_elim (IsJudged asset) (d.verified)
        (λ yes_verified.
          read_claim-IsJudged asset ranges stored d (decode_strict (d.signed_payload))
            λ claim read alike. trust d claim refl yes_verified read alike)
        (λ _. doubted refl refl)

  read_signature-IsJudged :
      (asset : Bytes) (ranges : List ByteRange) (store : Option Bytes) (b : Bytes)
      (manifest : Value) (stored sig : Option Value)
      → find_manifest_store asset ≡ ok (store, ranges)
      → not_empty store ≡ some b
      → decode_strict b ≡ ok manifest
      → locate_claim_and_signature manifest ≡ (stored, sig)
      → IsJudged asset (read_signature same_float crypto asset ranges stored sig)
  unfolding read_signature
  read_signature-IsJudged asset ranges store b manifest stored none found full parsed located =
      doubted refl refl
  read_signature-IsJudged asset ranges store b manifest stored (some sig) found full parsed
        located =
      read_verdict-IsJudged asset ranges stored (verify_cose_sign1 crypto sig)
        λ d claim verdict verified read alike.
          trusted store b manifest sig stored d found full parsed located
            (verify_cose_sign1-IsSigned crypto sig d verdict) verified read alike

  read_manifest_lem :
      (asset : Bytes) (ranges : List ByteRange) (read : Result StrictError Value)
      → ((manifest : Value)
          → read ≡ ok manifest
          → IsJudged asset (read_manifest same_float crypto asset ranges (ok manifest)))
      → IsJudged asset (read_manifest same_float crypto asset ranges read)
  unfolding read_manifest
  read_manifest_lem asset ranges (err e) judged = doubted refl refl
  read_manifest_lem asset ranges (ok manifest) judged = judged manifest refl

  read_store-IsJudged :
      (asset : Bytes) (ranges : List ByteRange) (store content : Option Bytes)
      → find_manifest_store asset ≡ ok (store, ranges)
      → not_empty store ≡ content
      → IsJudged asset (read_store same_float crypto asset content ranges)
  unfolding read_store read_manifest
  read_store-IsJudged asset ranges store none found full = doubted refl refl
  read_store-IsJudged asset ranges store (some b) found full =
      read_manifest_lem asset ranges (decode_strict b) λ manifest parsed.
        read_signature-IsJudged asset ranges store b manifest _ _ found full parsed refl

  extract_c2pa-IsJudged :
      (asset : Bytes) → Ends (λ _. Unit) (IsJudged asset) (extract_c2pa same_float crypto asset)
  unfolding extract_c2pa
  extract_c2pa-IsJudged asset =
      bind-Ends (find_manifest_store asset) (Ends-result (find_manifest_store asset))
        λ (store, ranges) found.
          returns _ (read_store-IsJudged asset ranges store (not_empty store) found refl)

  intact_lem :
      (asset : Bytes) {r : C2pa}
      → IsJudged asset r
      → r.intact ≡ true
      → (claim : Value) × (ranges : List ByteRange) × IsTrusted asset claim ranges
  intact_lem asset (doubted unbelieved _) intact = absurd (cc)
  intact_lem asset (believed claim ranges d trust) intact = (claim, ranges, trust)

  -- A manifest that `ExtractC2PA` calls intact is trusted.
  extract_c2pa-IsTrusted :
      (asset : Bytes) (r : C2pa)
      → extract_c2pa same_float crypto asset ≡ ok r
      → r.intact ≡ true
      → (claim : Value) × (ranges : List ByteRange) × IsTrusted asset claim ranges
  extract_c2pa-IsTrusted asset r e intact =
      intact_lem asset (Ends-ok (extract_c2pa-IsJudged asset) e) intact

  is_located :
      (asset : Bytes) (claim : Value) (ranges : List ByteRange)
      → IsTrusted asset claim ranges
      → AreApart 0 ranges (length asset) × All (IsPiece asset) ranges
  is_located asset claim ranges (trusted store b manifest sig stored d found _ _ _ _ _ _ _) =
      Ends-ok (find_manifest_store-IsLocated asset 0 []).0 found

  binds_lem :
      (asset : Bytes) {r : C2pa}
      → IsJudged asset r
      → r.binding_valid ≡ true
      → (claim : Value) × (ranges : List ByteRange) × IsTrusted asset claim ranges
        × All (IsPiece asset) ranges
        × Binds claim (crypto.sum sha256 (outside ranges 0 asset))
  unfolding believe
  binds_lem asset (doubted _ unbound) valid = absurd (cc)
  binds_lem asset (believed claim ranges d trust) valid = (
    claim,
    ranges,
    trust,
    (is_located asset claim ranges trust).1,
    rw (← exclude_ranges-outside asset ranges (is_located asset claim ranges trust).0)
        (verify_hard_binding-Binds crypto claim asset ranges valid),
  )

  -- When `ExtractC2PA` calls the binding valid, the claim is trusted and holds, in an assertion that is
  -- a hard binding, the SHA-256 of just those bytes of the asset that lie outside the ranges of its
  -- manifest, each of which is one whole piece of the container: an APP11 segment of a JPEG, a
  -- `caBX` chunk of a PNG or a C2PA box of a BMFF, to the length in its own header.
  pub extract_c2pa-Binds :
      (asset : Bytes) (r : C2pa)
      → extract_c2pa same_float crypto asset ≡ ok r
      → r.binding_valid ≡ true
      → (claim : Value) × (ranges : List ByteRange) × IsTrusted asset claim ranges
        × All (IsPiece asset) ranges
        × Binds claim (crypto.sum sha256 (outside ranges 0 asset))
  extract_c2pa-Binds asset r e valid =
      binds_lem asset (Ends-ok (extract_c2pa-IsJudged asset) e) valid
