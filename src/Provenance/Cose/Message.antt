-- ===== src/Provenance/Cose/Message.antt =====
-- `verifyCOSESign1` and `findX5Chain` of internal/modules/provenance/c2pa.go.
use market_place.Prelude.{
  ℕ, Bool, ℤ, pos, Option, none, some, List, [], ◌∷◌, Result, ok, err, ◌>>=◌,
}
use market_place.Bytes.{Bytes}
use market_place.Provenance.Text
use market_place.Provenance.Cbor.Values.{CborError, Value, uint}
use market_place.Provenance.Cbor.Access.{lookup, as_bytes, as_int, as_array, untag}
use market_place.Provenance.Cbor.Decode.{decode}
use market_place.Provenance.Cbor.Encode.{encode_text, encode_bytes, encode_array}
use market_place.Provenance.Cose.Algorithm.{
  Crypto, AlgorithmName, cose_alg_name, SignatureError, certificate_subject, verify_signature,
}

-- The Sig_structure that a signature is over; the external data is always empty.
unfoldable pub sig_structure : (protected payload : Bytes) → Bytes
sig_structure protected payload = encode_array (
    encode_text Text.signature1
    ∷ encode_bytes protected
    ∷ encode_bytes []
    ∷ encode_bytes payload
    ∷ [])

abbrev byte_strings : List Value → List Bytes
byte_strings [] = []
byte_strings (v ∷ vs) = elim (as_bytes v) [
  | none ↦ byte_strings vs
  | some der ↦ der ∷ byte_strings vs
]

-- The chain in one header's value: a byte string, or those of an array.
unfoldable pub chain_of : Value → List Bytes
chain_of v = elim (as_bytes v) [
  | some der ↦ der ∷ []
  | none ↦ elim (as_array v) [ none ↦ [] | some vs ↦ byte_strings vs ]
]

abbrev chain_in : Value → List Bytes
chain_in headers = elim (lookup headers (pos 33)) [ none ↦ [] | some v ↦ chain_of v ]

-- `findX5Chain`
unfoldable pub find_x5chain : (protected unprotected : Value) → List Bytes
find_x5chain protected unprotected = elim (chain_in protected) [
  | [] ↦ chain_in unprotected
  | ◌∷◌ der ders ↦ der ∷ ders
]

pub data CoseError : Type 0 where
  bad_message bad_headers : CborError → CoseError
  not_sign1 not_byte_strings no_algorithm bad_algorithm no_chain bad_certificate no_payload :
      CoseError
  bad_signature : SignatureError → CoseError

-- An error, with the issuer and the algorithm when they are known by then.
pub record CoseFailure : Type 0 where
  pub what : CoseError
  pub issuer : Option Bytes
  pub alg : Option AlgorithmName

abbrev pub failure : CoseError → Option Bytes → Option AlgorithmName → CoseFailure
failure what issuer alg = record { what = what; issuer = issuer; alg = alg }

-- The verdict on a message, and what was signed.
pub record Verdict : Type 0 where
  pub verified : Bool
  pub signed_payload : Bytes
  pub signer : Bytes
  pub signature_alg : AlgorithmName

-- The value or an error.
abbrev pub or_fail : {A E : Type 0} → E → Option A → Result E A
or_fail e none = err e
or_fail e (some a) = ok a

abbrev decoded : (CborError → CoseError) → Result CborError (Value × ℕ) → Result CoseFailure Value
decoded kind (ok (v, n)) = ok v
decoded kind (err e) = err (failure (kind e) none none)

-- A byte string wraps the message.
unfoldable pub unwrap_message : Value → Result CoseFailure Value
unwrap_message v = elim (as_bytes v) [ none ↦ ok v | some raw ↦ decoded bad_message (decode raw) ]

-- The protected headers; none are the zero value, in which nothing is found.
unfoldable pub protected_headers : Bytes → Result CoseFailure Value
protected_headers [] = ok (uint 0)
protected_headers (b ∷ bs) = decoded bad_headers (decode (b ∷ bs))

-- The four parts of a COSE_Sign1; the first and the last are byte strings.
pub record Sign1 : Type 0 where
  pub protected : Bytes
  pub unprotected : Value
  pub content : Value
  pub signature : Bytes

abbrev parts : Option Bytes → Value → Value → Option Bytes → Result CoseFailure Sign1
parts (some p) u c (some s) =
    ok (record { protected = p; unprotected = u; content = c; signature = s })
parts _ u c _ = err (failure not_byte_strings none none)

abbrev four : Option (List Value) → Result CoseFailure Sign1
four (some (p ∷ u ∷ c ∷ s ∷ [])) = parts (as_bytes p) u c (as_bytes s)
four _ = err (failure not_sign1 none none)

unfoldable pub sign1 : Value → Result CoseFailure Sign1
sign1 v = four (as_array (untag v))

-- The algorithm of the protected headers.
unfoldable pub header_algorithm : Value → Result CoseFailure ℤ
header_algorithm headers = do
  v ← or_fail (failure no_algorithm none none) (lookup headers (pos 1))
  or_fail (failure bad_algorithm none none) (as_int v)

-- The first certificate of the chain.
abbrev pub leaf : List Bytes → Option Bytes
leaf [] = none
leaf (der ∷ ders) = some der

abbrev pub not_empty : Option Bytes → Option Bytes
not_empty (some (b ∷ bs)) = some (b ∷ bs)
not_empty _ = none

abbrev pub settle :
    (issuer : Bytes)
    → AlgorithmName
    → Result SignatureError Bool
    → (Bool → Verdict)
    → Result CoseFailure Verdict
settle issuer name (ok verified) verdict = ok (verdict verified)
settle issuer name (err e) verdict = err (failure (bad_signature e) (some issuer) (some name))

module _ (crypto : Crypto) where
  -- The part of `verifyCOSESign1` behind the headers.
  unfoldable pub verify_message : Sign1 → (headers : Value) → (alg : ℤ) → Result CoseFailure Verdict
  verify_message msg headers alg = do
    let name = some (cose_alg_name alg)
    der ← or_fail (failure no_chain none name) (leaf (find_x5chain headers (msg.unprotected)))
    cert ← or_fail (failure bad_certificate none name) (crypto.parse_certificate der)
    let issuer = certificate_subject cert
    payload ← or_fail (failure no_payload (some issuer) name) (not_empty (as_bytes (msg.content)))
    settle issuer (cose_alg_name alg)
        (verify_signature crypto cert alg (sig_structure (msg.protected) payload) (msg.signature))
        λ verified. record {
          verified = verified;
          signed_payload = payload;
          signer = issuer;
          signature_alg = cose_alg_name alg;
        }

  -- `verifyCOSESign1`
  unfoldable pub verify_cose_sign1 : Value → Result CoseFailure Verdict
  verify_cose_sign1 v = do
    item ← unwrap_message v
    msg ← sign1 item
    headers ← protected_headers (msg.protected)
    alg ← header_algorithm headers
    verify_message msg headers alg
