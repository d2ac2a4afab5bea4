-- ===== src/Ids/Readable.antt =====
-- The public identifiers of internal/platform/ids/ids.go: they are accepted, and hold all their
-- random bits.
use market_place.Prelude.{
  ℕ, zero, suc, ◌+◌, ◌*◌, ◌/◌, ◌%◌, ◌^◌, ◌≤◌, ◌<◌, ◌≡◌, ◌≢◌, refl, ap, ◌∙◌, true, not, ◌||◌, ◌==◌,
  Option, none, some, [], ◌∷◌, ◌++◌, length, take, drop, All, ok, refuse_if-ok, Option-cases,
  take-append, length-append, take-append-drop, take-length, All-drop, length-drop, inl, inr, arith,
}
use market_place.Bytes.{
  Bytes, same_option, same_option_sound, index_byte, index_byte_sound, AreBytes, equal_refl,
  equal_sound, big_endian, big_endian-append, big_endian-lt, sub, byte_at, equal, every_below,
  every_below_sound,
}
use market_place.Ids.Public.{
  crockford, symbol_from, crockford_rev, encode_rounds, encode_crockford, new_public, are_symbols,
  parse_body, parse_public, valid_public,
}

-- The number that symbols stand for, in base 32.
unfoldable pub read_from : ℕ → Bytes → Option ℕ
read_from acc [] = some acc
read_from acc (c ∷ cs) = elim (crockford_rev c) [
  | none ↦ none
  | some d ↦ read_from (acc * 32 + d) cs
]

symbol_table : every_below 32 (λ d. same_option (crockford_rev (byte_at crockford d)) d) ≡ true
unfolding every_below crockford_rev symbol_from
symbol_table = refl

-- Each digit is read back from its symbol.
rev_symbol : (d : ℕ) → d < 32 → crockford_rev (byte_at crockford d) ≡ some d
rev_symbol d h = same_option_sound (crockford_rev (byte_at crockford d)) d (
    every_below_sound 32 (λ d. same_option (crockford_rev (byte_at crockford d)) d) d symbol_table
      h)

read_symbol :
    (acc d : ℕ) (out : Bytes)
    → d < 32
    → read_from acc (byte_at crockford d ∷ out) ≡ read_from (acc * 32 + d) out
unfolding read_from
read_symbol acc d out h = rw (rev_symbol d h, read_from) refl

read_rounds :
    (n hi lo : ℕ) (out : Bytes)
    → lo < 2 ^ 64
    → hi * 2 ^ 64 + lo < 32 ^ n
    → read_from 0 (encode_rounds n hi lo out) ≡ read_from (hi * 2 ^ 64 + lo) out
unfolding encode_rounds
read_rounds zero hi lo out l h = ap (λ v. read_from v out) (omega arith)
read_rounds (suc n) hi lo out l h =
    let hi' = hi / 32 in
    let lo' = lo / 32 + hi % 32 * 2 ^ 59 in
    let whole : (hi' * 2 ^ 64 + lo') * 32 + lo % 32 ≡ hi * 2 ^ 64 + lo = omega arith in
    read_rounds n hi' lo' (byte_at crockford (lo % 32) ∷ out) (omega arith) (omega arith)
    ∙ read_symbol (hi' * 2 ^ 64 + lo') (lo % 32) out (omega arith)
    ∙ ap (λ v. read_from v out) whole

-- The two words of a number of 16 bytes.
words :
    (raw : Bytes)
    → length raw ≡ 16
    → AreBytes raw
    → (big_endian (sub 8 8 raw) < 2 ^ 64)
      × (big_endian (sub 0 8 raw) * 2 ^ 64 + big_endian (sub 8 8 raw) ≡ big_endian raw)
      × (big_endian raw < 2 ^ 128)
words raw e h =
    let upper = take 8 raw in
    let lower = drop 8 raw in
    let size : length lower ≡ 8 = omega (arith, length-drop 8 raw) in
    let place : 256 ^ length lower ≡ 2 ^ 64 = rw size in
    let high : 256 ^ length raw ≡ 2 ^ 128 = rw e in
    let split : big_endian (upper ++ lower) ≡ big_endian upper * 2 ^ 64 + big_endian lower =
      rw (← place) (big_endian-append 0 upper lower) in
    let low = big_endian-lt lower (All-drop _ 8 raw h) in
    let same : big_endian (upper ++ lower) ≡ big_endian raw =
      ap big_endian (take-append-drop 8 raw) in
    rw (take-length 8 lower size) (omega arith, omega arith, omega (arith, big_endian-lt raw h))

-- The letters and digits of a body, and the bytes before its underscore.
abbrev pub IsPrefix : Bytes → Type 0
IsPrefix p = (0 < length p) × (length p ≤ 4) × All (λ c. c ≢ b'_') p

index_byte-prefix :
    (p rest : Bytes)
    → All (λ c. c ≢ b'_') p
    → index_byte b'_' (p ++ (b'_' ∷ rest)) ≡ some (length p)
unfolding index_byte
index_byte-prefix [] rest h = refl
index_byte-prefix (x ∷ p) rest (hx, h) = ground (arith, index_byte-prefix p rest h)

read_symbols :
    (acc : ℕ) (body : Bytes) (n : ℕ) → read_from acc body ≡ some n → are_symbols body ≡ true
unfolding read_from are_symbols
read_symbols acc [] n e = refl
read_symbols acc (c ∷ body) n e = elim (Option-cases (crockford_rev c)) [
  | inl missing ↦ ground arith
  | inr (d, found) ↦ ground (arith, read_symbols (acc * 32 + d) body n)
]

length-encode_rounds :
    (n hi lo : ℕ) (out : Bytes) → length (encode_rounds n hi lo out) ≡ n + length out
unfolding encode_rounds
length-encode_rounds zero hi lo out = omega arith
length-encode_rounds (suc n) hi lo out = omega (
  arith,
  length-encode_rounds n (hi / 32) (lo / 32 + hi % 32 * 2 ^ 59) (byte_at crockford (lo % 32) ∷ out),
)

length-encode_crockford : (raw : Bytes) → length (encode_crockford raw) ≡ 26
unfolding encode_crockford
length-encode_crockford raw =
    length-encode_rounds 26 (big_endian (sub 0 8 raw)) (big_endian (sub 8 8 raw)) []

read_encode :
    (raw : Bytes)
    → length raw ≡ 16
    → AreBytes raw
    → read_from 0 (encode_crockford raw) ≡ some (big_endian raw)
unfolding encode_crockford read_from
read_encode raw e h =
    let (low, whole, below) = words raw e h in
    read_rounds 26 (big_endian (sub 0 8 raw)) (big_endian (sub 8 8 raw)) [] low (omega arith)
    ∙ ap some whole

drop-past : (p : Bytes) (c : ℕ) (rest : Bytes) → drop (suc (length p)) (p ++ (c ∷ rest)) ≡ rest
drop-past [] c rest = refl
drop-past (x ∷ p) c rest = drop-past p c rest

-- A new identifier is accepted under its prefix, and its body, read as a number, is the number of the
-- random bytes, so that no two numbers share one; it is also valid without the prefix. A prefix has
-- one to four bytes, none of them an underscore.
pub parse_public-new_public :
    (p raw : Bytes)
    → IsPrefix p
    → length raw ≡ 16
    → AreBytes raw
    → (parse_public p (new_public p raw) ≡ ok (encode_crockford raw))
      × (read_from 0 (encode_crockford raw) ≡ some (big_endian raw))
      × (valid_public (new_public p raw) ≡ true)
unfolding parse_public parse_body valid_public new_public
parse_public-new_public p raw (some_bytes, few, plain) e h =
    let body = encode_crockford raw in
    let read = read_encode raw e h in
    let symbols = read_symbols 0 body (big_endian raw) read in
    let size : length body ≡ 26 = length-encode_crockford raw in
    let place = index_byte-prefix p body plain in
    let before = take-append (length p) p (b'_' ∷ body) refl in
    let after = drop-past p b'_' body in
    let whole = length-append p (b'_' ∷ body) in
    let same = equal_refl p in
    (
      rw (place, before, after, same, symbols) (ground (arith, size, whole)),
      read,
      rw (place, after, symbols) (ground (arith, size, whole)),
    )

symbols_read :
    (acc : ℕ) (body : Bytes) → are_symbols body ≡ true → (n : ℕ) × (read_from acc body ≡ some n)
unfolding read_from are_symbols
symbols_read acc [] e = (acc, refl)
symbols_read acc (c ∷ body) e = elim (Option-cases (crockford_rev c)) [
  | inl missing ↦ absurd (ground arith)
  | inr (d, found) ↦
      let (n, rest) = symbols_read (acc * 32 + d) body (ground arith) in
      (n, rw (found, read_from) rest)
]

parse_body_sound :
    (want s : Bytes) (i : ℕ) {body : Bytes}
    → index_byte b'_' s ≡ some i
    → parse_body want s (some i) ≡ ok body
    → (want ++ (b'_' ∷ body) ≡ s) × (length body ≡ 26) × (n : ℕ) × (read_from 0 body ≡ some n)
unfolding parse_body
parse_body_sound want s i {body} place e =
    let rest = drop (suc i) s in
    let (_, e1) = refuse_if-ok (i == 0 || suc i == length s) _ _ e in
    let (prefix, e2) = refuse_if-ok (not (equal (take i s) want)) _ _ e1 in
    let (size, e3) = refuse_if-ok (not (length rest == 26)) _ _ e2 in
    let (symbols, e4) = refuse_if-ok (not (are_symbols rest)) _ _ e3 in
    let same : rest ≡ body = cc in
    let front : take i s ≡ want = equal_sound (take i s) want (ground arith) in
    let (n, value) = symbols_read 0 rest (ground arith) in
    (
      rw (← same, ← front) (index_byte_sound b'_' s i place),
      rw (← same) (ground arith),
      n,
      rw (← same) value,
    )

-- What is accepted is the prefix, an underscore and a body of 26 symbols, which stand for a number.
pub parse_public_sound :
    (want s body : Bytes)
    → parse_public want s ≡ ok body
    → (want ++ (b'_' ∷ body) ≡ s) × (length body ≡ 26) × (n : ℕ) × (read_from 0 body ≡ some n)
unfolding parse_public parse_body
parse_public_sound want s body e = elim (Option-cases (index_byte b'_' s)) [
  | inl missing ↦ absurd (let bad = rw (missing, parse_body) at e in cc)
  | inr (i, place) ↦ parse_body_sound want s i place (rw place at e)
]
