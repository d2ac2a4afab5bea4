-- ===== src/Bytes.antt =====
-- Bytes, and the big-endian numbers of encoding/binary.
use Prim.Native.Char.{code}
use Prim.Native.String.{String}
use market_place.Prelude.{
  ℕ, zero, suc, ◌+◌, ◌*◌, ◌/◌, ◌%◌, ◌^◌, ◌<◌, ◌≤◌, ◌≡◌, refl, ap, ==_iff, List, [], ◌∷◌, ◌++◌, All,
  length, length-append, take, drop, Bool, true, false, both_true, ◌==◌, if◌then◌else◌, Option,
  none, some, ◌&&◌, arith,
}

-- Each byte is a number below 256.
abbrev pub Bytes : Type 0
Bytes = List ℕ

-- The bytes of a text, if it is ASCII.
abbrev pub codes : String → Bytes
codes String.[] = []
codes (String.◌∷◌ c s) = code c ∷ codes s

abbrev pub AreBytes : Bytes → Type 0
AreBytes = All (λ b. b < 256)

abbrev pub big_endian_from : ℕ → Bytes → ℕ
big_endian_from acc [] = acc
big_endian_from acc (b ∷ bs) = big_endian_from (acc * 256 + b) bs

-- `b[i:i+n]`, within bounds.
abbrev pub sub : (i n : ℕ) → Bytes → Bytes
sub i n b = take n (drop i b)

abbrev first_byte : Bytes → ℕ
first_byte [] = 0
first_byte (b ∷ bs) = b

-- `b[i]`, within bounds.
abbrev pub byte_at : Bytes → ℕ → ℕ
byte_at b i = first_byte (drop i b)

-- `bytes.Equal`
abbrev pub equal : Bytes → Bytes → Bool
equal [] [] = true
equal (x ∷ xs) (y ∷ ys) = (x == y) && equal xs ys
equal _ _ = false

-- `bytes.HasPrefix`
abbrev pub has_prefix : (b prefix : Bytes) → Bool
has_prefix b prefix = equal (take (length prefix) b) prefix

-- `binary.BigEndian.Uint16`, `Uint32` and `Uint64`, by the number of the bytes.
abbrev pub big_endian : Bytes → ℕ
big_endian = big_endian_from 0

-- `binary.BigEndian.PutUint16`, `PutUint32` and `PutUint64`.
unfoldable pub put_big_endian : ℕ → ℕ → Bytes
put_big_endian zero x = []
put_big_endian (suc n) x = put_big_endian n (x / 256) ++ (x % 256 ∷ [])

pub length-put_big_endian : (n x : ℕ) → length (put_big_endian n x) ≡ n
unfolding put_big_endian
length-put_big_endian zero x = refl
length-put_big_endian (suc n) x = omega (
  arith,
  length-append (put_big_endian n (x / 256)) (x % 256 ∷ []),
  length-put_big_endian n (x / 256),
)

big_endian_from-append :
    (acc : ℕ) (xs : Bytes) (b : ℕ)
    → big_endian_from acc (xs ++ (b ∷ [])) ≡ big_endian_from acc xs * 256 + b
big_endian_from-append acc [] b = refl
big_endian_from-append acc (x ∷ xs) b = big_endian_from-append (acc * 256 + x) xs b

pub big_endian-put_big_endian : (n x : ℕ) → x < 256 ^ n → big_endian (put_big_endian n x) ≡ x
unfolding put_big_endian
big_endian-put_big_endian zero x h = omega arith
big_endian-put_big_endian (suc n) x h = omega (
  arith,
  big_endian_from-append 0 (put_big_endian n (x / 256)) (x % 256),
  big_endian-put_big_endian n (x / 256) (omega arith),
)

pub equal_sound : (xs ys : Bytes) → equal xs ys ≡ true → xs ≡ ys
equal_sound [] [] e = refl
equal_sound (x ∷ xs) (y ∷ ys) e = grind (arith, equal_sound xs ys)
equal_sound [] (y ∷ ys) e = absurd (cc)
equal_sound (x ∷ xs) [] e = absurd (cc)

pub equal_refl : (b : Bytes) → equal b b ≡ true
equal_refl [] = refl
equal_refl (x ∷ b) = ground (arith, equal_refl b)

pub has_prefix-length : (b p : Bytes) → has_prefix b p ≡ true → length p ≤ length b
has_prefix-length b [] e = omega arith
has_prefix-length [] (y ∷ p) e = absurd (cc)
has_prefix-length (x ∷ b) (y ∷ p) e = grind (arith, has_prefix-length b p)

-- A digit more before the place p, where a place further up is q.
one_place_up : (acc x p : ℕ) {q : ℕ} → q ≡ 256 * p → (acc * 256 + x) * p ≡ acc * q + x * p
one_place_up acc x p e = rw e (distribute acc x p)
  where
    distribute : (a b p : ℕ) → (a * 256 + b) * p ≡ a * (256 * p) + b * p
    distribute a b p = grind arith

place : (n : ℕ) → 256 ^ suc n ≡ 256 * 256 ^ n
place n = omega arith

-- The number that more bytes make, with what stands before them.
big_endian_from-eq :
    (acc : ℕ) (xs : Bytes) → big_endian_from acc xs ≡ acc * 256 ^ length xs + big_endian xs
big_endian_from-eq acc [] = omega arith
big_endian_from-eq acc (x ∷ xs) = omega (
  arith,
  one_place_up acc x _ (place (length xs)),
  one_place_up 0 x _ (place (length xs)),
  big_endian_from-eq (acc * 256 + x) xs,
  big_endian_from-eq (0 * 256 + x) xs,
)

pub big_endian-append :
    (acc : ℕ) (xs ys : Bytes)
    → big_endian_from acc (xs ++ ys) ≡ big_endian_from acc xs * 256 ^ length ys + big_endian ys
big_endian-append acc [] ys = big_endian_from-eq acc ys
big_endian-append acc (x ∷ xs) ys = big_endian-append (acc * 256 + x) xs ys

pub big_endian-lt : (xs : Bytes) → AreBytes xs → big_endian xs < 256 ^ length xs
big_endian-lt [] h = omega arith
big_endian-lt (x ∷ xs) (hx, h) =
    let below : (x + 1) * 256 ^ length xs ≤ 256 * 256 ^ length xs = grind arith in
    let split : (x + 1) * 256 ^ length xs ≡ x * 256 ^ length xs + 256 ^ length xs = grind arith in
    omega (
      arith,
      below,
      split,
      place (length xs),
      big_endian_from-eq (0 * 256 + x) xs,
      one_place_up 0 x _ (place (length xs)),
      big_endian-lt xs h,
    )

-- Whether a table of the first numbers passes a test, which each of them then passes.
unfoldable pub every_below : (size : ℕ) → (test : ℕ → Bool) → Bool
every_below zero test = true
every_below (suc size) test = every_below size test && test size

pub every_below_sound :
    (size : ℕ) (test : ℕ → Bool) (entry : ℕ)
    → every_below size test ≡ true
    → entry < size
    → test entry ≡ true
unfolding every_below
every_below_sound zero test entry table within = elim within [ ]
every_below_sound (suc size) test entry table within =
    let (lower, last) = both_true (every_below size test) (test size) table in
    let rest : entry < size → test entry ≡ true = every_below_sound size test entry lower in
    ground (arith, lower, last, rest)

-- `strings.IndexByte`, with `none` for -1.
unfoldable pub index_byte : (c : ℕ) → Bytes → Option ℕ
index_byte c [] = none
index_byte c (x ∷ xs) =
    let rest = index_byte c xs in
    if x == c then some 0 else elim rest [ none ↦ none | some i ↦ some (suc i) ]

pub index_byte_sound :
    (c : ℕ) (s : Bytes) (i : ℕ) → index_byte c s ≡ some i → take i s ++ (c ∷ drop (suc i) s) ≡ s
unfolding index_byte
index_byte_sound c [] i e = absurd (cc)
index_byte_sound c (x ∷ s) zero e = ground arith
index_byte_sound c (x ∷ s) (suc i) e = ground (arith, index_byte_sound c s i)

-- The byte stands where it is found.
pub byte_at-index_byte :
    (c : ℕ) (s : Bytes) (i : ℕ) → index_byte c s ≡ some i → (i < length s) × (byte_at s i ≡ c)
unfolding index_byte
byte_at-index_byte c [] i e = absurd (cc)
byte_at-index_byte c (x ∷ s) zero e = ground arith
byte_at-index_byte c (x ∷ s) (suc i) e = ground (arith, byte_at-index_byte c s i)

abbrev pub same_option : Option ℕ → ℕ → Bool
same_option none d = false
same_option (some x) d = x == d

pub same_option_sound : (o : Option ℕ) (d : ℕ) → same_option o d ≡ true → o ≡ some d
same_option_sound none d e = cc
same_option_sound (some x) d e = ap some ((==_iff x d).0 e)
