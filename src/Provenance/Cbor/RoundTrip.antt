-- ===== src/Provenance/Cbor/RoundTrip.antt =====
-- What the decoder of internal/modules/provenance/cbor.go reads back of what the encoder writes.
use market_place.Prelude.{
  ℕ, zero, suc, ◌+◌, ◌*◌, ◌/◌, ◌%◌, ◌^◌, ◌<◌, ◌≤◌, ◌≡◌, refl, sym, ap, ◌∙◌, List, [], ◌∷◌, ◌++◌,
  length, drop, length-append, take-append, drop-append, append_assoc, false, if_elim, ltb, Result,
  ok, arith,
}
use market_place.Bytes.{Bytes, put_big_endian, length-put_big_endian, big_endian-put_big_endian}
use market_place.Provenance.Cbor.Values.{CborError, Value, bytes, text, array, values}
use market_place.Provenance.Cbor.Decode.{
  Decoder, decode_argument, wide_argument, decode_body, decode_items, decode_at, major_of, arrays,
  check_count, decode_string, max_elements,
}
use market_place.Provenance.Cbor.Encode.{
  encode_head, encode_bytes, encode_text, concat, encode_array,
}

wide_argument-put_big_endian :
    (n h arg : ℕ) (rest : Bytes)
    → arg < 256 ^ n
    → wide_argument n (h ∷ (put_big_endian n arg ++ rest)) ≡ ok (arg, n + 1)
wide_argument-put_big_endian n h arg rest small =
    let long : ltb (length (h ∷ (put_big_endian n arg ++ rest))) (n + 1) ≡ false =
      ground (arith, length-append (put_big_endian n arg) rest, length-put_big_endian n arg) in
    rw
      (
        long,
        take-append n (put_big_endian n arg) rest (length-put_big_endian n arg),
        big_endian-put_big_endian n arg small,
      )
      refl

-- A header that says `major` and `arg`: its first byte, what follows it, and what is read of it.
data IsHead (major arg : ℕ) : Bytes → Type 0 where
  head :
      (minor : ℕ) (tail : Bytes)
      → minor < 32
      → ((rest : Bytes)
          → decode_argument ((major * 32 + minor) ∷ (tail ++ rest)) minor
            ≡ ok (arg, suc (length tail)))
      → IsHead major arg ((major * 32 + minor) ∷ tail)

wide-IsHead :
    (major arg minor n : ℕ)
    → minor < 32
    → arg < 256 ^ n
    → ((b : Bytes) → decode_argument b minor ≡ wide_argument n b)
    → IsHead major arg ((major * 32 + minor) ∷ put_big_endian n arg)
wide-IsHead major arg minor n small fits same = head minor (put_big_endian n arg) small λ rest.
    same ((major * 32 + minor) ∷ (put_big_endian n arg ++ rest))
    ∙ (wide_argument-put_big_endian n (major * 32 + minor) arg rest fits
        ∙ ap (λ k. ok (arg, k)) (omega (arith, length-put_big_endian n arg)))

encode_head-IsHead : (major arg : ℕ) → arg < 2 ^ 64 → IsHead major arg (encode_head major arg)
unfolding encode_head decode_argument
encode_head-IsHead major arg fits =
    if_elim (IsHead major arg) (ltb arg 24) (λ e. head arg [] (ground arith) (λ rest. rw (e) refl))
      λ _.
        if_elim (IsHead major arg) (ltb arg (2 ^ 8))
          (λ e. wide-IsHead major arg 24 1 (omega arith) (ground arith) (λ b. refl))
          λ _.
            if_elim (IsHead major arg) (ltb arg (2 ^ 16))
              (λ e. wide-IsHead major arg 25 2 (omega arith) (ground arith) (λ b. refl))
              λ _.
                if_elim (IsHead major arg) (ltb arg (2 ^ 32))
                  (λ e. wide-IsHead major arg 26 4 (omega arith) (ground arith) (λ b. refl))
                  λ _. wide-IsHead major arg 27 8 (omega arith) fits (λ b. refl)

-- The encodings of an item that a decoder reads back, with anything behind them.
unfoldable pub IsEncoding : Decoder → Value → Bytes → Type 0
IsEncoding item v b = (rest : Bytes) → item (b ++ rest) ≡ ok (v, length b)

-- A header leads the decoder into the branch of its major type.
decode_at-head :
    (k major arg : ℕ) (b rest : Bytes) {r : Result CborError (Value × ℕ)}
    → IsHead major arg b
    → ((minor : ℕ) → decode_body (decode_at k) (major_of major) minor arg (length b) rest ≡ r)
    → decode_at (suc k) (b ++ rest) ≡ r
unfolding decode_at
decode_at-head k major arg _ rest (head minor tail small reads) body =
    let low : (major * 32 + minor) % 32 ≡ minor = omega arith in
    let high : (major * 32 + minor) / 32 ≡ major = omega arith in
    let n = suc (length tail) in
    let dropped : drop n ((major * 32 + minor) ∷ (tail ++ rest)) ≡ rest =
      drop-append n ((major * 32 + minor) ∷ tail) rest (omega arith) in
    rw (low, high, reads rest)
      (ap (λ z. decode_body (decode_at k) (major_of major) minor arg n z) dropped ∙ body minor)

decode_string-append :
    (kind : Bytes → Value) (n : ℕ) (b rest : Bytes)
    → decode_string kind (length b) n (b ++ rest) ≡ ok (kind b, n + length b)
decode_string-append kind n b rest =
    let long : ltb (length (b ++ rest)) (length b) ≡ false = ground (arith, length-append b rest) in
    rw (long, take-append (length b) b rest refl) refl

-- The header of a string, and the string.
string-IsEncoding :
    (k major : ℕ) (kind : Bytes → Value) (b : Bytes)
    → length b < 2 ^ 64
    → ((minor n : ℕ) (rest : Bytes)
        → decode_body (decode_at k) (major_of major) minor (length b) n rest
          ≡ decode_string kind (length b) n rest)
    → IsEncoding (decode_at (suc k)) (kind b) (encode_head major (length b) ++ b)
unfolding IsEncoding
string-IsEncoding k major kind b fits body rest =
    let h = encode_head major (length b) in
    rw (append_assoc h b rest) (
      decode_at-head k major (length b) h (b ++ rest) (encode_head-IsHead major (length b) fits)
        λ minor.
          body minor (length h) (b ++ rest)
          ∙ (decode_string-append kind (length h) b rest
              ∙ ap (λ n. ok (kind b, n)) (sym (length-append h b))))

-- A byte string is read back.
pub encode_bytes-IsEncoding :
    (k : ℕ) (b : Bytes)
    → length b < 2 ^ 64
    → IsEncoding (decode_at (suc k)) (bytes b) (encode_bytes b)
unfolding encode_bytes decode_body major_of
encode_bytes-IsEncoding k b fits = string-IsEncoding k 2 bytes b fits (λ minor n rest. refl)

-- A text string is read back.
pub encode_text-IsEncoding :
    (k : ℕ) (s : Bytes)
    → length s < 2 ^ 64
    → IsEncoding (decode_at (suc k)) (text s) (encode_text s)
unfolding encode_text decode_body major_of
encode_text-IsEncoding k s fits = string-IsEncoding k 3 text s fits (λ minor n rest. refl)

-- Values and the bytes that each is read from.
pub data AreEncodings (item : Decoder) : List Value → List Bytes → Type 0 where
  done : AreEncodings item [] []
  more :
      {v : Value} {b : Bytes} {vs : List Value} {bs : List Bytes}
      → IsEncoding item v b
      → AreEncodings item vs bs
      → AreEncodings item (v ∷ vs) (b ∷ bs)

encoding-nonempty : (k : ℕ) (v : Value) (b : Bytes) → IsEncoding (decode_at k) v b → 0 < length b
unfolding IsEncoding decode_at
encoding-nonempty zero v [] e = let bad = e [] in absurd (cc)
encoding-nonempty (suc k) v [] e = let bad = e [] in absurd (cc)
encoding-nonempty k v (x ∷ b) e = omega arith

concat-long :
    (k : ℕ) (vs : List Value) (bs : List Bytes)
    → AreEncodings (decode_at k) vs bs
    → length bs ≤ length (concat bs)
concat-long k _ _ done = omega arith
concat-long k _ _ (more {v} {b} {vs} {bs} e es) =
    omega (arith, concat-long k vs bs es, encoding-nonempty k v b e, length-append b (concat bs))

decode_items-concat :
    (item : Decoder) (vs : List Value) (bs : List Bytes) (rest : Bytes)
    → AreEncodings item vs bs
    → decode_items item (length bs) (concat bs ++ rest) ≡ ok (values vs, length (concat bs))
unfolding decode_items IsEncoding
decode_items-concat item _ _ rest done = refl
decode_items-concat item _ _ rest (more {v} {b} {vs} {bs} e es) =
    rw
      (
        append_assoc b (concat bs) rest,
        e (concat bs ++ rest),
        drop-append (length b) b (concat bs ++ rest) refl,
        decode_items-concat item vs bs rest es,
        length-append b (concat bs),
      )
      refl

-- The count is tested against the bytes left, and then the items are read.
decode_array-concat :
    (item : Decoder) (n : ℕ) (vs : List Value) (bs : List Bytes) (rest : Bytes)
    → length bs ≤ max_elements
    → AreEncodings item vs bs
    → length bs ≤ length (concat bs)
    → decode_body item arrays 0 (length bs) n (concat bs ++ rest)
      ≡ ok (array (values vs), n + length (concat bs))
unfolding decode_body check_count
decode_array-concat item n vs bs rest small es long =
    let fits : ltb max_elements (length bs) ≡ false = ground arith in
    let enough : ltb (length (concat bs ++ rest)) (length bs) ≡ false =
      ground (arith, length-append (concat bs) rest) in
    rw (fits, enough, decode_items-concat item vs bs rest es) refl

-- An array of at most `max_elements` items is read back, one level deeper than its items.
pub encode_array-IsEncoding :
    (k : ℕ) (vs : List Value) (bs : List Bytes)
    → length bs ≤ max_elements
    → AreEncodings (decode_at k) vs bs
    → IsEncoding (decode_at (suc k)) (array (values vs)) (encode_array bs)
unfolding encode_array IsEncoding
encode_array-IsEncoding k vs bs small es rest =
    let h = encode_head 4 (length bs) in
    rw (append_assoc h (concat bs) rest) (
      decode_at-head k 4 (length bs) h (concat bs ++ rest)
        (encode_head-IsHead 4 (length bs) (omega arith))
        λ minor.
          unfold decode_body major_of in
          decode_array-concat (decode_at k) (length h) vs bs rest small es (concat-long k vs bs es)
          ∙ ap (λ n. ok (array (values vs), n)) (sym (length-append h (concat bs))))
