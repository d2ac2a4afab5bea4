-- ===== src/Validate/Fields.antt =====
-- The validators of internal/platform/validate/validate.go. A validator takes the failures so far and
-- returns its value with the failures behind it. A text is its bytes.
use market_place.Prelude.{
  ℕ, suc, ◌+◌, ◌-◌, ◌*◌, ◌/◌, ◌%◌, ℤ, ltb_ℤ, pos, Bool, true, false, not, ◌&&◌, ◌||◌, ◌==◌, leb,
  ltb, if◌then◌else◌, Option, none, some, List, [], ◌∷◌, ◌++◌, length, take, drop,
}
use market_place.Bytes.{Bytes, codes, sub, byte_at, equal, index_byte}

-- The codes of the failures.
pub data Code : Type 0 where
  required : Code
  too_short : Code
  too_long : Code
  invalid : Code
  invalid_state : Code
  checksum : Code
  reserved : Code
  invalid_choice : Code
  out_of_range : Code

-- `problem.FieldError`, without its text.
pub record FieldError : Type 0 where
  pub field : Bytes
  pub failure : Code

-- `Errors`
abbrev pub Errors : Type 0
Errors = List FieldError

-- `Errors.Add`
unfoldable pub add_error : (field : Bytes) → Code → Errors → Errors
add_error field c e = e ++ (record { field = field; failure = c } ∷ [])

-- A failure is added, and the value is empty.
unfoldable pub refuse : (field : Bytes) → Code → Errors → Bytes × Errors
refuse field c e = ([], add_error field c e)

abbrev pub between : (lo hi c : ℕ) → Bool
between lo hi c = leb lo c && leb c hi

unfoldable pub all_in : (ℕ → Bool) → Bytes → Bool
all_in p [] = true
all_in p (c ∷ cs) = p c && all_in p cs

-- `isAlpha` and `isDigits`, which want a character.
unfoldable pub is_alpha : Bytes → Bool
is_alpha s = all_in (between b'A' b'Z') s && ltb 0 (length s)

unfoldable pub is_digits : Bytes → Bool
is_digits s = all_in (between b'0' b'9') s && ltb 0 (length s)

-- `panShape`
unfoldable pub pan_shape : Bytes → Bool
pan_shape v =
    length v == 10 && is_alpha (sub 0 5 v) && is_digits (sub 5 4 v) && is_alpha (sub 9 1 v)

-- `b36`
abbrev pub b36 : Bytes
b36 = codes "0123456789ABCDEFGHIJKLMNOPQRSTUVWXYZ"

-- The digits of a symbol's weighted value, added up; the weight is 2 at odd places.
abbrev pub weigh : (i symbol : ℕ) → ℕ
weigh i symbol = let p = if i % 2 == 1 then symbol * 2 else symbol in p / 36 + p % 36

-- The loop of `gstinChecksumOK` from place i; `none` at a byte that is no symbol.
unfoldable pub gstin_sum : (i sum : ℕ) → Bytes → Option ℕ
gstin_sum i sum [] = some sum
gstin_sum i sum (c ∷ cs) = elim (index_byte c b36) [
  | none ↦ none
  | some symbol ↦ gstin_sum (suc i) (sum + weigh i symbol) cs
]

-- `gstinChecksumOK`
unfoldable pub gstin_checksum_ok : Bytes → Bool
gstin_checksum_ok v = elim (gstin_sum 0 0 (take 14 v)) [
  | none ↦ false
  | some sum ↦ byte_at v 14 == byte_at b36 ((36 - sum % 36) % 36)
]

-- `validStateCodes`
abbrev pub valid_state_code : ℕ → Bool
valid_state_code n = between 1 38 n || n == 97 || n == 99

abbrev pub state_of : Bytes → ℕ
state_of v = (byte_at v 0 - b'0') * 10 + (byte_at v 1 - b'0')

-- What `GSTIN` finds wrong with a text, if anything.
unfoldable pub gstin_failure : Bytes → Option Code
gstin_failure v =
    if length v == 0
    then some required
    else if not (length v == 15)
    then some invalid
    else if not (is_digits (sub 0 2 v))
    then some invalid
    else if not (valid_state_code (state_of v))
    then some invalid_state
    else if not (pan_shape (sub 2 10 v))
    then some invalid
    else if not (byte_at v 13 == b'Z')
    then some invalid
    else if not (gstin_checksum_ok v)
    then some checksum
    else none

-- The value where nothing is wrong.
unfoldable pub accept_or : (field : Bytes) → Errors → (v : Bytes) → Option Code → Bytes × Errors
accept_or field e v none = (v, e)
accept_or field e v (some c) = refuse field c e

-- What `IFSC` finds wrong.
unfoldable pub ifsc_failure : Bytes → Option Code
ifsc_failure v =
    if not (length v == 11) || not (is_alpha (sub 0 4 v)) || not (byte_at v 4 == b'0')
    then some invalid
    else if all_in (λ c. between b'A' b'Z' c || between b'0' b'9' c) (drop 5 v)
    then none
    else some invalid

-- The functions of package strings that clean an input: `ToUpper` and `ToLower` behind `TrimSpace`.
pub record Clean : Type 0 where
  pub trim : Bytes → Bytes
  pub upper : Bytes → Bytes
  pub lower : Bytes → Bytes

module _ (clean : Clean) where
  -- `GSTIN`
  unfoldable pub gstin : (field v : Bytes) → Errors → Bytes × Errors
  gstin field v e = let s = clean.upper (clean.trim v) in accept_or field e s (gstin_failure s)

  -- `PAN`
  unfoldable pub pan : (field v : Bytes) → Errors → Bytes × Errors
  pan field v e =
      let s = clean.upper (clean.trim v) in
      accept_or field e s (if pan_shape s then none else some invalid)

  -- `IFSC`
  unfoldable pub ifsc : (field v : Bytes) → Errors → Bytes × Errors
  ifsc field v e = let s = clean.upper (clean.trim v) in accept_or field e s (ifsc_failure s)

  -- `BankAccount`
  unfoldable pub bank_account : (field v : Bytes) → Errors → Bytes × Errors
  bank_account field v e =
      let s = clean.trim v in
      accept_or field e s
        (if ltb (length s) 6 || ltb 20 (length s) || not (is_digits s) then some invalid else none)

-- `OneOf`
unfoldable pub one_of : (field v : Bytes) → List Bytes → Errors → Bytes × Errors
one_of field v [] e = refuse field invalid_choice e
one_of field v (a ∷ allowed) e =
    let rest = one_of field v allowed e in if equal v a then (v, e) else rest

-- `IntRange`
unfoldable pub int_range : (field : Bytes) → (v min max : ℤ) → Errors → ℤ × Errors
int_range field v min max e =
    if ltb_ℤ v min || ltb_ℤ max v then (pos 0, add_error field out_of_range e) else (v, e)
