-- ===== src/Provenance/Cose/Verified.antt =====
-- What a verdict of `verifyCOSESign1`, of internal/modules/provenance/c2pa.go, rests on.
use market_place.Prelude.{
  ◌≡◌, refl, Bool, Option, none, some, ℤ, Result, ok, err, ◌>>=◌, Ends, Ends-ok, Ends-result,
  bind-Ends, returns, fails,
}
use market_place.Bytes.{Bytes}
use market_place.Provenance.Cbor.Values.{Value}
use market_place.Provenance.Cbor.Access.{as_bytes}
use market_place.Provenance.Cose.Algorithm.{
  Crypto, Certificate, AlgorithmName, cose_alg_name, certificate_subject, SignatureError,
  verify_signature,
}
use market_place.Provenance.Cose.Message.{
  sig_structure, Sign1, Verdict, verify_message, verify_cose_sign1, protected_headers,
  header_algorithm, unwrap_message, sign1, find_x5chain, leaf, not_empty, or_fail, settle,
}

module _ (crypto : Crypto) where
  -- The message that is read from a value, its headers and algorithm, the certificate in it, and the
  -- answer of the cryptography over the Sig_structure of the headers' bytes and the payload.
  pub data IsSigned (v : Value) (d : Verdict) : Type 0 where
    signed :
        (msg : Sign1) (headers : Value) (alg : ℤ) (der : Bytes) (cert : Certificate)
        → (unwrap_message v >>= sign1) ≡ ok msg
        → protected_headers (msg.protected) ≡ ok headers
        → header_algorithm headers ≡ ok alg
        → leaf (find_x5chain headers (msg.unprotected)) ≡ some der
        → crypto.parse_certificate der ≡ some cert
        → not_empty (as_bytes (msg.content)) ≡ some (d.signed_payload)
        → verify_signature crypto cert alg
            (sig_structure (msg.protected) (d.signed_payload))
            (msg.signature)
          ≡ ok (d.verified)
        → IsSigned v d

  or_fail-Ends :
      {A E : Type 0} (e : E) (o : Option A) → Ends (λ _. Unit) (λ a. o ≡ some a) (or_fail e o)
  or_fail-Ends e none = fails e tt
  or_fail-Ends e (some a) = returns a refl

  settle-Ends :
      (issuer : Bytes) (name : AlgorithmName) (r : Result SignatureError Bool)
      (verdict : Bool → Verdict) {Q : Verdict → Type 0}
      → ((b : Bool) → r ≡ ok b → Q (verdict b))
      → Ends (λ _. Unit) Q (settle issuer name r verdict)
  settle-Ends issuer name (ok b) verdict h = returns (verdict b) (h b refl)
  settle-Ends issuer name (err e) verdict h = fails _ tt

  verify_message-Ends :
      (v : Value) (msg : Sign1) (headers : Value) (alg : ℤ)
      → (unwrap_message v >>= sign1) ≡ ok msg
      → protected_headers (msg.protected) ≡ ok headers
      → header_algorithm headers ≡ ok alg
      → Ends (λ _. Unit) (IsSigned v) (verify_message crypto msg headers alg)
  unfolding verify_message
  verify_message-Ends v msg headers alg read protected named =
      bind-Ends _ (or_fail-Ends _ (leaf (find_x5chain headers (msg.unprotected)))) λ der chain.
        bind-Ends _ (or_fail-Ends _ (crypto.parse_certificate der)) λ cert parsed.
          bind-Ends _ (or_fail-Ends _ (not_empty (as_bytes (msg.content)))) λ payload content.
            settle-Ends (certificate_subject cert) (cose_alg_name alg) _ _ λ b answer.
              signed msg headers alg der cert read protected named chain parsed content answer

  -- A verdict of `verifyCOSESign1` is the cryptography's own, for the first certificate of the message
  -- and the algorithm of its protected headers, over the Sig_structure of the very headers and payload.
  pub verify_cose_sign1-IsSigned :
      (v : Value) (d : Verdict) → verify_cose_sign1 crypto v ≡ ok d → IsSigned v d
  unfolding verify_cose_sign1
  verify_cose_sign1-IsSigned v d e =
      let verdict : Ends (λ _. Unit) (IsSigned v) (verify_cose_sign1 crypto v) =
        bind-Ends (unwrap_message v) (Ends-result (unwrap_message v)) λ item unwrapped.
          bind-Ends (sign1 item) (Ends-result (sign1 item)) λ msg read.
            bind-Ends (protected_headers (msg.protected))
              (Ends-result (protected_headers (msg.protected)))
              λ headers protected.
                bind-Ends (header_algorithm headers) (Ends-result (header_algorithm headers))
                  λ alg named.
                    verify_message-Ends v msg headers alg (rw (unwrapped) read) protected named in
      Ends-ok verdict e
