-- ===== src/Provenance/Cbor/Bounds.antt =====
-- What the decoder takes from its input: it never reads past the end, and what it builds is no larger
-- than what it read.
use market_place.Prelude.{
  ℕ, zero, suc, ◌+◌, ◌/◌, ◌%◌, ◌≤◌, ◌<◌, ◌≡◌, refl, false, ltb, leb, half_word, [], ◌∷◌, ◌++◌,
  length, length-append, take, drop, length-take, length-drop, take-append_short, drop-append_short,
  Result, ok, arith, Result-cases, Ends, returns, fails, bind-Ends, weaken-Ends, Ends-ok,
  Ends-intro, Bool-cases, inl, inr,
}
use market_place.Bytes.{Bytes}
use market_place.Provenance.Cbor.Values.{
  Value, bytes, text, CborError, weight, weights, weights_of_pairs, depth, depths, depths_of_pairs,
}
use market_place.Provenance.Cbor.Decode.{
  wide_argument, decode_argument, check_count, decode_simple, Major, unsigned, negative,
  byte_string, text_string, arrays, maps, tags, simple, major_of, Decoder, decode_items,
  decode_pairs, decode_string, decode_body, decode_at, decode,
}

module _ (more : Bytes) where
  wide_argument_lem :
      (n h : ℕ) (t : Bytes) {arg m : ℕ}
      → wide_argument n (h ∷ t) ≡ ok (arg, m)
      → (m ≡ n + 1) × (n ≤ length t) × (wide_argument n (h ∷ (t ++ more)) ≡ ok (arg, m))
  wide_argument_lem n h t e = elim (Bool-cases (ltb (length (h ∷ t)) (n + 1))) [
    | inl short ↦ cc (rw short at e)
    | inr enough ↦
        let le : n ≤ length t = ground arith in
        let long : ltb (length (h ∷ (t ++ more))) (n + 1) ≡ false =
          ground (arith, length-append t more) in
        let e' = rw enough at e in
        (ground (arith, e'), le, rw (long, take-append_short n t more le) e')
  ]

  decode_argument_lem :
      (h : ℕ) (t : Bytes) (minor : ℕ) {arg n : ℕ}
      → decode_argument (h ∷ t) minor ≡ ok (arg, n)
      → (0 < n) × (n ≤ 1 + length t) × (decode_argument (h ∷ (t ++ more)) minor ≡ ok (arg, n))
  unfolding decode_argument
  decode_argument_lem h t minor {arg} {n} e = ground (
    arith,
    wide_argument_lem 1 h t {arg = arg} {m = n},
    wide_argument_lem 2 h t {arg = arg} {m = n},
    wide_argument_lem 4 h t {arg = arg} {m = n},
    wide_argument_lem 8 h t {arg = arg} {m = n},
  )

  abbrev Whatever : CborError → Type 0
  Whatever _ = Unit

  -- What a decoder gives for b: at least one byte is read and none past the end, the value is no
  -- heavier than what was read and no deeper than k, and bytes behind b change nothing.
  abbrev Facts : (k : ℕ) → Decoder → (b : Bytes) → Value × ℕ → Type 0
  Facts k item b (v, n) =
      (0 < n) × (n ≤ length b) × (weight v ≤ n) × (depth v ≤ k) × (item (b ++ more) ≡ ok (v, n))

  abbrev IsSound : (k : ℕ) → Decoder → Type 0
  IsSound k item = (b : Bytes) → Ends Whatever (Facts k item b) (item b)

  decode_items_lem :
      (item : Decoder) (k : ℕ)
      → IsSound k item
      → (c : ℕ) (b : Bytes)
      → Ends Whatever
          (λ (vs, n).
            (n ≤ length b)
            × (weights vs ≤ n)
            × (depths vs ≤ k)
            × (decode_items item c (b ++ more) ≡ ok (vs, n)))
          (decode_items item c b)
  unfolding decode_items weight depth
  decode_items_lem item k sound zero b = returns _ (omega arith, omega arith, omega arith, refl)
  decode_items_lem item k sound (suc c) b =
      bind-Ends (item b) (sound b) λ (v, used) (positive, le, light, shallow, stable).
        bind-Ends (decode_items item c (drop used b))
          (decode_items_lem item k sound c (drop used b))
          λ (vs, n) (le', light', shallow', stable'). returns _ (
            omega (arith, length-drop used b),
            omega arith,
            omega arith,
            rw (stable, drop-append_short used b more le, stable') refl,
          )

  decode_pairs_lem :
      (item : Decoder) (k : ℕ)
      → IsSound k item
      → (c : ℕ) (b : Bytes)
      → Ends Whatever
          (λ (ps, n).
            (n ≤ length b)
            × (weights_of_pairs ps ≤ n)
            × (depths_of_pairs ps ≤ k)
            × (decode_pairs item c (b ++ more) ≡ ok (ps, n)))
          (decode_pairs item c b)
  unfolding decode_pairs weight depth
  decode_pairs_lem item k sound zero b = returns _ (omega arith, omega arith, omega arith, refl)
  decode_pairs_lem item k sound (suc c) b =
      bind-Ends (item b) (sound b) λ (key, x) (p1, le1, light1, shallow1, stable1).
        bind-Ends (item (drop x b)) (sound (drop x b))
          λ (v, y) (p2, le2, light2, shallow2, stable2).
            let b' = drop y (drop x b) in
            bind-Ends (decode_pairs item c b') (decode_pairs_lem item k sound c b')
              λ (ps, n) (le3, light3, shallow3, stable3). returns _ (
                omega (arith, length-drop x b, length-drop y (drop x b)),
                omega arith,
                omega arith,
                rw
                    (
                      stable1,
                      drop-append_short x b more le1,
                      stable2,
                      drop-append_short y (drop x b) more le2,
                      stable3,
                    )
                    refl,
              )

  -- An item whose header has n bytes, decoded from the rest of the input.
  abbrev BodyFacts : (k n : ℕ) → Bytes → Result CborError (Value × ℕ) → Value × ℕ → Type 0
  BodyFacts k n rest long (v, m) =
      (n ≤ m) × (m ≤ n + length rest) × (weight v ≤ m) × (depth v ≤ suc k) × (long ≡ ok (v, m))

  decode_string_lem :
      (kind : Bytes → Value) (k arg n : ℕ) (rest : Bytes)
      → 0 < n
      → ((b : Bytes) → (weight (kind b) ≡ 1 + length b) × (depth (kind b) ≡ 1))
      → Ends Whatever
          (BodyFacts k n rest (decode_string kind arg n (rest ++ more)))
          (decode_string kind arg n rest)
  decode_string_lem kind k arg n rest hn facts = elim (Bool-cases (ltb (length rest) arg)) [
    | inl short ↦ rw short (fails _ tt)
    | inr enough ↦
        let le : arg ≤ length rest = ground arith in
        let long : ltb (length (rest ++ more)) arg ≡ false =
          ground (arith, length-append rest more) in
        let (w, d) = facts (take arg rest) in
        rw (enough, long)
          (returns _ (
            omega arith,
            omega arith,
            omega (arith, w, length-take arg rest le),
            omega (arith, d),
            rw (take-append_short arg rest more le) refl,
          ))
  ]

  check_count_lem :
      (c : ℕ) (rest : Bytes)
      → Ends Whatever
          (λ _. check_count c (length (rest ++ more)) ≡ ok tt)
          (check_count c (length rest))
  unfolding check_count
  check_count_lem c rest =
      Ends-intro (check_count c (length rest)) (λ _ e. ground (arith, length-append rest more))
        (λ _ _. tt)

  decode_simple_lem :
      (minor arg : ℕ)
      → Ends Whatever (λ v. (weight v ≡ 1) × (depth v ≡ 1)) (decode_simple minor arg)
  unfolding decode_simple weight depth
  decode_simple_lem minor arg =
      Ends-intro (decode_simple minor arg) (λ v e. ground arith) (λ _ _. tt)

  decode_body_lem :
      (item : Decoder) (k : ℕ)
      → IsSound k item
      → (major : Major) (minor arg n : ℕ) (rest : Bytes) → 0 < n
      → Ends Whatever
          (BodyFacts k n rest (decode_body item major minor arg n (rest ++ more)))
          (decode_body item major minor arg n rest)
  unfolding decode_body weight depth
  decode_body_lem item k sound unsigned minor arg n rest hn =
      returns _ (omega arith, omega arith, omega arith, omega arith, refl)
  decode_body_lem item k sound negative minor arg n rest hn =
      elim (Bool-cases (leb half_word arg)) [
        | inl wide ↦ rw wide (fails _ tt)
        | inr fit ↦ rw fit (returns _ (omega arith, omega arith, omega arith, omega arith, refl))
      ]
  decode_body_lem item k sound byte_string minor arg n rest hn =
      decode_string_lem bytes k arg n rest hn (λ b. (refl, refl))
  decode_body_lem item k sound text_string minor arg n rest hn =
      decode_string_lem text k arg n rest hn (λ b. (refl, refl))
  decode_body_lem item k sound arrays minor arg n rest hn =
      bind-Ends (check_count arg (length rest)) (check_count_lem arg rest) λ _ counted.
        bind-Ends (decode_items item arg rest) (decode_items_lem item k sound arg rest)
          λ (vs, m) (le, light, shallow, stable).
            returns _
              (omega arith, omega arith, omega arith, omega arith, rw (counted, stable) refl)
  decode_body_lem item k sound maps minor arg n rest hn =
      bind-Ends (check_count arg (length rest)) (check_count_lem arg rest) λ _ counted.
        bind-Ends (decode_pairs item arg rest) (decode_pairs_lem item k sound arg rest)
          λ (ps, m) (le, light, shallow, stable).
            returns _
              (omega arith, omega arith, omega arith, omega arith, rw (counted, stable) refl)
  decode_body_lem item k sound tags minor arg n rest hn =
      bind-Ends (item rest) (sound rest) λ (v, m) (positive, le, light, shallow, stable).
        returns _ (omega arith, omega arith, omega arith, omega arith, rw stable refl)
  decode_body_lem item k sound simple minor arg n rest hn =
      elim (Result-cases (decode_simple minor arg)) [
        | inr (e, failed) ↦ rw failed (fails _ tt)
        | inl (v, done) ↦
            let (w, d) = Ends-ok (decode_simple_lem minor arg) done in
            rw done (returns _ (omega arith, omega arith, omega (arith, w), omega (arith, d), refl))
      ]

  decode_argument-Ends :
      (h : ℕ) (t : Bytes) (minor : ℕ)
      → Ends Whatever
          (λ (arg, n).
            (0 < n) × (n ≤ 1 + length t) × (decode_argument (h ∷ (t ++ more)) minor ≡ ok (arg, n)))
          (decode_argument (h ∷ t) minor)
  decode_argument-Ends h t minor =
      Ends-intro (decode_argument (h ∷ t) minor) (λ (arg, n) e. decode_argument_lem h t minor e)
        (λ _ _. tt)

  decode_at-IsSound : (k : ℕ) → IsSound k (decode_at k)
  unfolding decode_at
  decode_at-IsSound zero b = fails _ tt
  decode_at-IsSound (suc k) [] = fails _ tt
  decode_at-IsSound (suc k) (h ∷ t) =
      bind-Ends (decode_argument (h ∷ t) (h % 32)) (decode_argument-Ends h t (h % 32))
        λ (arg, n) (positive, le, same).
          let b = drop n (h ∷ t) in
          let major = major_of (h / 32) in
          weaken-Ends
            (λ (v, m) (from, to, light, shallow, stable). (
              omega arith,
              omega (arith, length-drop n (h ∷ t)),
              light,
              shallow,
              rw (same, drop-append_short n (h ∷ t) more (omega arith)) stable,
            ))
            (decode_body_lem (decode_at k) k (decode_at-IsSound k) major (h % 32) arg n b positive)

-- What the decoder returns took at least one byte and none past the end of the input, counts no more
-- items and string bytes than bytes were read, and is nested at most 33 deep. The same prefix gives
-- the same item whatever bytes follow.
pub decode_bounds :
    (b more : Bytes) {v : Value} {n : ℕ}
    → decode b ≡ ok (v, n)
    → (0 < n) × (n ≤ length b) × (weight v ≤ n) × (depth v ≤ 33) × (decode (b ++ more) ≡ ok (v, n))
decode_bounds b more e = Ends-ok (decode_at-IsSound more 33 b) e
