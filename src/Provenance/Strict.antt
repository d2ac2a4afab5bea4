-- ===== src/Provenance/Strict.antt =====
-- Decoding a manifest or a claim: `decodeCBORStrict` and `allZero` of internal/modules/provenance/c2pa.go.
use market_place.Prelude.{
  ℕ, ◌-◌, ◌≤◌, ◌≡◌, refl, inl, inr, Bool-cases, ◌↔◌, Bool, true, false, not, ◌&&◌, both_true, ◌==◌,
  [], ◌∷◌, ◌++◌, All, All-append, length, drop, drop-append_short, drop-length, length-append,
  Result, ok, err, ◌>>=◌, ◌>>◌, refuse_if, Ends, Ends-ok, bind-Ends, refuse-Ends, returns, fails,
  arith,
}
use market_place.Bytes.{Bytes}
use market_place.Provenance.Cbor.Values.{CborError, Value}
use market_place.Provenance.Cbor.Decode.{decode}
use market_place.Provenance.Cbor.Bounds.{decode_bounds}

-- `allZero`
unfoldable pub all_zero : Bytes → Bool
all_zero [] = true
all_zero (b ∷ bs) = (b == 0) && all_zero bs

-- Why a claim is refused: the decoder's error, or data behind the item.
pub data StrictError : Type 0 where
  malformed : CborError → StrictError
  trailing : ℕ → StrictError

abbrev pub strictly : Result CborError (Value × ℕ) → Result StrictError (Value × ℕ)
strictly (ok r) = ok r
strictly (err e) = err (malformed e)

-- `decodeCBORStrict`
unfoldable pub decode_strict : Bytes → Result StrictError Value
decode_strict b = do
  (v, n) ← strictly (decode b)
  refuse_if (not (n == length b) && not (all_zero (drop n b))) (trailing (length b - n))
  ok v

all_zero_iff : (b : Bytes) → (all_zero b ≡ true) ↔ All (λ x. x ≡ 0) b
unfolding all_zero
all_zero_iff [] = (λ _. tt, λ _. refl)
all_zero_iff (x ∷ b) = (
  λ e.
      (let (first, zeros) = both_true (x == 0) (all_zero b) e in
        (ground (arith, first), (all_zero_iff b).0 zeros)),
  λ (first, zeros). rw ((all_zero_iff b).1 zeros, first) refl,
)

-- The test passes when nothing is left, or only zeros.
only_zeros :
    (b : Bytes) (n : ℕ)
    → (not (n == length b) && not (all_zero (drop n b))) ≡ false
    → All (λ x. x ≡ 0) (drop n b)
only_zeros b n e = elim (Bool-cases (all_zero (drop n b))) [
  | inl zeros ↦ (all_zero_iff (drop n b)).0 zeros
  | inr other ↦ rw (drop-length n b (ground (arith, other))) tt
]

-- What `decode_strict` has found when it returns v: v ends at byte n, and zeros fill the rest.
abbrev pub IsPadded : Bytes → Value → ℕ → Type 0
IsPadded b v n = (decode b ≡ ok (v, n)) × (n ≤ length b) × All (λ x. x ≡ 0) (drop n b)

passes :
    (b : Bytes) (n : ℕ)
    → All (λ x. x ≡ 0) (drop n b)
    → (not (n == length b) && not (all_zero (drop n b))) ≡ false
passes b n zeros =
    let clear : all_zero (drop n b) ≡ true = (all_zero_iff (drop n b)).1 zeros in
    ground (arith, clear)

strictly-Ends :
    (r : Result CborError (Value × ℕ)) → Ends (λ _. Unit) (λ read. r ≡ ok read) (strictly r)
strictly-Ends (ok read) = returns read refl
strictly-Ends (err e) = fails (malformed e) tt

decode_strict-IsPadded :
    (b : Bytes) → Ends (λ _. Unit) (λ v. (n : ℕ) × IsPadded b v n) (decode_strict b)
unfolding decode_strict
decode_strict-IsPadded b = bind-Ends (strictly (decode b)) (strictly-Ends (decode b)) λ (v, n) read.
    refuse-Ends (not (n == length b) && not (all_zero (drop n b))) (trailing (length b - n))
      (λ _. ok v) tt
      λ passed.
        let (_, le, _, _, _) = decode_bounds b [] read in
        returns v (n, (read, le, only_zeros b n passed))

-- `decodeCBORStrict` returns a value exactly when the decoder returns it and nothing but zeros
-- follows what the decoder has read.
pub decode_strict_iff :
    (b : Bytes) (v : Value) → (decode_strict b ≡ ok v) ↔ ((n : ℕ) × IsPadded b v n)
unfolding decode_strict
decode_strict_iff b v = (
  λ e. Ends-ok (decode_strict-IsPadded b) e,
  λ (n, (e, le, zeros)). rw (e, passes b n zeros) refl,
)

-- Zeros behind the bytes of a claim change nothing.
pub decode_strict-append :
    (b zeros : Bytes) (v : Value)
    → All (λ x. x ≡ 0) zeros
    → decode_strict b ≡ ok v
    → decode_strict (b ++ zeros) ≡ ok v
decode_strict-append b zeros v clear e =
    let (n, (read, le, rest)) = (decode_strict_iff b v).0 e in
    let (_, _, _, _, same) = decode_bounds b zeros read in
    (decode_strict_iff (b ++ zeros) v).1 (
      n,
      (
        same,
        omega (arith, length-append b zeros),
        rw (drop-append_short n b zeros le) (All-append (λ x. x ≡ 0) (drop n b) zeros rest clear),
      ),
    )
