-- ===== src/Provenance/Cose/Binds.antt =====
-- What a signature in a COSE_Sign1 binds: the Sig_structure of internal/modules/provenance/c2pa.go.
use market_place.Prelude.{
  ℕ, ◌≡◌, ◌<◌, ◌^◌, sym, ap, ◌∙◌, List, [], ◌∷◌, append-nil, length, Result, ok, arith,
}
use market_place.Bytes.{Bytes}
use market_place.Provenance.Text
use market_place.Provenance.Cbor.Values.{CborError, Value, bytes, text, array, nil, cons, values}
use market_place.Provenance.Cbor.Decode.{decode, decode_at}
use market_place.Provenance.Cbor.Encode.{encode_text, encode_bytes, encode_array}
use market_place.Provenance.Cbor.RoundTrip.{
  IsEncoding, AreEncodings, done, more, encode_bytes-IsEncoding, encode_text-IsEncoding,
  encode_array-IsEncoding,
}
use market_place.Provenance.Cose.Message.{sig_structure}

-- The items of a Sig_structure.
abbrev pub fields : (protected payload : Bytes) → List Value
fields protected payload = text Text.signature1 ∷ bytes protected ∷ bytes [] ∷ bytes payload ∷ []

-- The decoder reads a Sig_structure back: its context, the protected headers, no external data and
-- the payload, when the two are shorter than 2^64 bytes.
decode-sig_structure :
    (protected payload : Bytes)
    → length protected < 2 ^ 64
    → length payload < 2 ^ 64
    → decode (sig_structure protected payload)
      ≡ ok (array (values (fields protected payload)), length (sig_structure protected payload))
unfolding sig_structure IsEncoding
decode-sig_structure protected payload p_fits b_fits =
    let all =
      encode_text Text.signature1
      ∷ encode_bytes protected
      ∷ encode_bytes []
      ∷ encode_bytes payload
      ∷ [] in
    let each : AreEncodings (decode_at 32) (fields protected payload) all =
      more (encode_text-IsEncoding 31 Text.signature1 (omega arith)) (
        more (encode_bytes-IsEncoding 31 protected p_fits) (
          more (encode_bytes-IsEncoding 31 [] (omega arith))
            (more (encode_bytes-IsEncoding 31 payload b_fits) done))) in
    let whole : IsEncoding (decode_at 33) (array (values (fields protected payload)))
        (encode_array all) =
      encode_array-IsEncoding 32 (fields protected payload) all (omega arith) each in
    rw (append-nil (encode_array all)) at (whole [])

abbrev signed_parts : Result CborError (Value × ℕ) → List Bytes
signed_parts (ok (array (cons c (cons (bytes p) (cons e (cons (bytes b) nil)))), n)) = p ∷ b ∷ []
signed_parts _ = []

-- Two Sig_structures are the same bytes only for the same protected headers and the same payload, so
-- that a signature over one says nothing of another message.
pub sig_structure_injective :
    (p b q c : Bytes)
    → length p < 2 ^ 64
    → length b < 2 ^ 64
    → length q < 2 ^ 64
    → length c < 2 ^ 64
    → sig_structure p b ≡ sig_structure q c
    → (p ≡ q) × (b ≡ c)
sig_structure_injective p b q c p_fits b_fits q_fits c_fits same =
    let both : p ∷ b ∷ [] ≡ q ∷ c ∷ [] = ap signed_parts (
      sym (decode-sig_structure p b p_fits b_fits)
      ∙ (ap decode same ∙ decode-sig_structure q c q_fits c_fits)) in
    (cc, cc)
