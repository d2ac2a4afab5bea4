-- ===== src/Provenance/Cose/Algorithm.antt =====
-- `verifySignature`, with `verifyECDSAASN1`, `ecdsaDigest`, `hashFor`, `coseAlgName` and
-- `certificateSubject`, of internal/modules/provenance/c2pa.go.
use market_place.Prelude.{
  ℕ, ◌*◌, ◌==◌, ◌++◌, Bool, if◌then◌else◌, ℤ, pos, negsuc, Option, none, some, List, [], ◌∷◌,
  length, take, drop, Result, ok, err,
}
use market_place.Bytes.{Bytes, big_endian}

pub data Hash : Type 0 where
  sha256 sha384 sha512 : Hash

-- A public key, by the type that the certificate's parser has given it; its parts are opaque.
pub data PublicKey : Type 0 where
  ecdsa_key rsa_key ed25519_key other_key : Bytes → PublicKey

-- What the module reads of an `x509.Certificate`.
pub record Certificate : Type 0 where
  pub public_key : PublicKey
  pub common_name : Bytes
  pub organization : List Bytes
  pub subject : Bytes

-- The packages crypto/x509, crypto/sha256, crypto/sha512, crypto/ecdsa, crypto/rsa, crypto/ed25519 and
-- encoding/asn1.
pub record Crypto : Type 0 where
  pub parse_certificate : Bytes → Option Certificate
  pub sum : Hash → Bytes → Bytes
  pub ecdsa_verify : (key digest : Bytes) → (r s : ℤ) → Bool
  pub parse_asn1 : Bytes → Option (ℤ × ℤ)
  pub rsa_verify_pss : (key : Bytes) → Hash → (digest signature : Bytes) → Bool
  pub rsa_verify_pkcs1 : (key : Bytes) → Hash → (digest signature : Bytes) → Bool
  pub ed25519_verify : (key signed signature : Bytes) → Bool

-- The algorithms that `verifySignature` supports, with their digests and, for ECDSA, the width of a
-- coordinate.
pub data Algorithm : Type 0 where
  ecdsa : Hash → (width : ℕ) → Algorithm
  pss pkcs1 : Hash → Algorithm
  ed_dsa unsupported : Algorithm

-- The registry's numbers; `negsuc n` is -(n + 1).
unfoldable pub algorithm : ℤ → Algorithm
algorithm (pos n) = unsupported
algorithm (negsuc n) =
    if n == 6
    then ecdsa sha256 32
    else if n == 34
    then ecdsa sha384 48
    else if n == 35
    then ecdsa sha512 66
    else if n == 36
    then pss sha256
    else if n == 37
    then pss sha384
    else if n == 38
    then pss sha512
    else if n == 256
    then pkcs1 sha256
    else if n == 257
    then pkcs1 sha384
    else if n == 258
    then pkcs1 sha512
    else if n == 7
    then ed_dsa
    else unsupported

-- `coseAlgName`, without the words.
pub data AlgorithmName : Type 0 where
  es256 ed_dsa_name es384 es512 ps256 ps384 ps512 rs256 : AlgorithmName
  numbered : ℤ → AlgorithmName

unfoldable pub cose_alg_name : ℤ → AlgorithmName
cose_alg_name (pos n) = numbered (pos n)
cose_alg_name (negsuc n) =
    if n == 6
    then es256
    else if n == 7
    then ed_dsa_name
    else if n == 34
    then es384
    else if n == 35
    then es512
    else if n == 36
    then ps256
    else if n == 37
    then ps384
    else if n == 38
    then ps512
    else if n == 256
    then rs256
    else numbered (negsuc n)

-- Why no verdict on a signature is given.
pub data SignatureError : Type 0 where
  wrong_key not_asn1 unsupported_algorithm : SignatureError

-- The subject that is shown: the common name, with the organization in parentheses.
unfoldable pub certificate_subject : Certificate → Bytes
certificate_subject cert = elim (cert.common_name) [
  | [] ↦ elim (cert.organization) [ [] ↦ cert.subject | ◌∷◌ o os ↦ o ]
  | ◌∷◌ c cs ↦ elim (cert.organization) [
    | [] ↦ c ∷ cs
    | ◌∷◌ o os ↦ (c ∷ cs) ++ (32 ∷ 40 ∷ []) ++ o ++ (41 ∷ [])
  ]
]

module _ (crypto : Crypto) where
  -- `verifyECDSAASN1`
  unfoldable pub verify_asn1 : (key digest signature : Bytes) → Result SignatureError Bool
  verify_asn1 key digest signature = elim (crypto.parse_asn1 signature) [
    | none ↦ err not_asn1
    | some parsed ↦ ok (crypto.ecdsa_verify key digest (parsed.0) (parsed.1))
  ]

  -- `verifySignature`, for an algorithm and a key; the fixed-width encoding is preferred to ASN.1.
  unfoldable pub verify_with :
      Algorithm → PublicKey → (signed signature : Bytes) → Result SignatureError Bool
  verify_with (ecdsa hash width) (ecdsa_key key) signed signature =
      let digest = crypto.sum hash signed in
      if length signature == 2 * width
      then ok (
          crypto.ecdsa_verify key digest (pos (big_endian (take width signature)))
            (pos (big_endian (drop width signature))))
      else verify_asn1 key digest signature
  verify_with (pss hash) (rsa_key key) signed signature =
      ok (crypto.rsa_verify_pss key hash (crypto.sum hash signed) signature)
  verify_with (pkcs1 hash) (rsa_key key) signed signature =
      ok (crypto.rsa_verify_pkcs1 key hash (crypto.sum hash signed) signature)
  verify_with ed_dsa (ed25519_key key) signed signature =
      ok (crypto.ed25519_verify key signed signature)
  verify_with unsupported key signed signature = err unsupported_algorithm
  verify_with alg key signed signature = err wrong_key

  -- `verifySignature`
  unfoldable pub verify_signature :
      Certificate → (alg : ℤ) → (signed signature : Bytes) → Result SignatureError Bool
  verify_signature cert alg signed signature =
      verify_with (algorithm alg) (cert.public_key) signed signature
