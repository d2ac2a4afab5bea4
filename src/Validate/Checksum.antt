-- ===== src/Validate/Checksum.antt =====
-- The check character of a GSTIN, of internal/platform/validate/validate.go.
use market_place.Prelude.{
  ℕ, zero, suc, ◌+◌, ◌-◌, ◌%◌, ◌<◌, ◌≡◌, ◌≢◌, ◌⊎◌, inl, inr, refl, sym, ◌∙◌, ap, true, ==_iff,
  Option, none, some, Option-cases, [], ◌∷◌, length, length-append, take, drop, length-drop, arith,
}
use market_place.Bytes.{
  Bytes, byte_at, index_byte, byte_at-index_byte, every_below, every_below_sound, same_option,
  same_option_sound,
}
use market_place.Validate.Fields.{
  Code, Errors, add_error, refuse, b36, weigh, gstin_sum, gstin_checksum_ok, gstin_failure,
  accept_or, Clean, gstin,
}

-- Two texts that are of one length and differ in exactly one place.
abbrev pub OneOff : Bytes → Bytes → Type 0
OneOff [] ys = ⊥
OneOff (x ∷ xs) [] = ⊥
OneOff (x ∷ xs) (y ∷ ys) = ((x ≢ y) × (xs ≡ ys)) ⊎ ((x ≡ y) × OneOff xs ys)

-- Doubling with the digits added up permutes the symbols.
weigh-ne : (i a b : ℕ) → a < 36 → b < 36 → a ≢ b → weigh i a % 36 ≢ weigh i b % 36
weigh-ne i a b ha hb ne e = ground arith

-- A loop that ends has found a symbol at each byte.
gstin_sum-step :
    (i s c : ℕ) (xs : Bytes) {s' : ℕ}
    → gstin_sum i s (c ∷ xs) ≡ some s'
    → (a : ℕ) × (index_byte c b36 ≡ some a) × (gstin_sum (suc i) (s + weigh i a) xs ≡ some s')
unfolding gstin_sum
gstin_sum-step i s c xs p = elim (Option-cases (index_byte c b36)) [
  | inl missing ↦ absurd (let bad = rw (missing, gstin_sum) at p in cc)
  | inr (a, found) ↦ (a, found, rw (found, gstin_sum) at p)
]

-- Sums that differ stay different behind the same symbols.
sum-apart :
    (i s t : ℕ) (xs : Bytes) {s' t' : ℕ}
    → s % 36 ≢ t % 36
    → gstin_sum i s xs ≡ some s'
    → gstin_sum i t xs ≡ some t'
    → s' % 36 ≢ t' % 36
unfolding gstin_sum
sum-apart i s t [] ne p q = ground arith
sum-apart i s t (c ∷ xs) ne p q =
    let (a, found, p') = gstin_sum-step i s c xs p in
    let (b, found', q') = gstin_sum-step i t c xs q in
    let same : a ≡ b = cc in
    sum-apart (suc i) (s + weigh i a) (t + weigh i a) xs (shift (weigh i a)) p' (rw (← same) at q')
  where
    shift : (w : ℕ) → (s + w) % 36 ≢ (t + w) % 36
    shift w e = ne (omega arith)

-- The sums over texts that differ in one place: different there, or the same with the difference to come.
sums_differ :
    (n i s : ℕ) (xs ys : Bytes) {s' t' : ℕ}
    → OneOff xs ys
    → gstin_sum i s (take n xs) ≡ some s'
    → gstin_sum i s (take n ys) ≡ some t'
    → ((s' % 36 ≢ t' % 36) × (drop n xs ≡ drop n ys)) ⊎ ((s' ≡ t') × OneOff (drop n xs) (drop n ys))
unfolding gstin_sum
sums_differ zero i s xs ys d p q = inr (ground arith, d)
sums_differ (suc n) i s (x ∷ xs) (y ∷ ys) (inl (ne, rest)) p q =
    let (a, found, p') = gstin_sum-step i s x (take n xs) p in
    let (b, found', q') = gstin_sum-step i s y (take n ys) q in
    let (ha, at_a) = byte_at-index_byte x b36 a found in
    let (hb, at_b) = byte_at-index_byte y b36 b found' in
    let apart : a ≢ b = λ e. ne (cc) in
    let weights = weigh-ne i a b ha hb apart in
    inl (
      sum-apart (suc i) (s + weigh i a) (s + weigh i b) (take n xs) (λ e. weights (omega arith)) p'
          (rw (← rest) at q'),
      ap (drop n) rest,
    )
sums_differ (suc n) i s (x ∷ xs) (y ∷ ys) (inr (same, d)) p q =
    let (a, found, p') = gstin_sum-step i s x (take n xs) p in
    let (b, found', q') = gstin_sum-step i s y (take n ys) q in
    let agree : b ≡ a = cc in sums_differ n (suc i) (s + weigh i a) xs ys d p' (rw (agree) at q')
sums_differ (suc n) i s (x ∷ xs) [] d p q = elim d [ ]
sums_differ (suc n) i s [] ys d p q = elim d [ ]

b36_table : every_below 36 (λ d. same_option (index_byte (byte_at b36 d) b36) d) ≡ true
unfolding every_below index_byte
b36_table = refl

b36_injective : (a b : ℕ) → a < 36 → b < 36 → byte_at b36 a ≡ byte_at b36 b → a ≡ b
b36_injective a b ha hb e =
    let same : some a ≡ some b = sym (found a ha) ∙ ap (λ c. index_byte c b36) e ∙ found b hb in cc
  where
    found : (d : ℕ) → d < 36 → index_byte (byte_at b36 d) b36 ≡ some d
    found d h =
        same_option_sound (index_byte (byte_at b36 d) b36) d
          (every_below_sound 36 (λ d. same_option (index_byte (byte_at b36 d) b36) d) d b36_table h)

-- The check character that belongs to a sum.
abbrev check : ℕ → ℕ
check sum = byte_at b36 ((36 - sum % 36) % 36)

checksum-ok :
    (v : Bytes)
    → gstin_checksum_ok v ≡ true
    → (sum : ℕ) × (gstin_sum 0 0 (take 14 v) ≡ some sum) × (byte_at v 14 ≡ check sum)
unfolding gstin_checksum_ok
checksum-ok v e = elim (Option-cases (gstin_sum 0 0 (take 14 v))) [
  | inl missing ↦ absurd (let bad = rw (missing, gstin_checksum_ok) at e in cc)
  | inr (sum, found) ↦ (sum, found, (==_iff _ _).0 (rw (found, gstin_checksum_ok) at e))
]

last_differs : (xs ys : Bytes) → length xs ≡ 1 → OneOff xs ys → byte_at xs 0 ≢ byte_at ys 0
last_differs [] ys h d = elim d [ ]
last_differs (x ∷ xs) [] h d = elim d [ ]
last_differs (x ∷ xs) (y ∷ ys) h (inl (ne, _)) = ne
last_differs (x ∷ []) (y ∷ ys) h (inr (_, d)) = elim d [ ]
last_differs (x ∷ z ∷ xs) (y ∷ ys) h (inr (_, d)) = absurd (omega arith)

-- No two texts of 15 bytes that differ in one place both have their check character.
gstin_checksum_ok-OneOff :
    (v w : Bytes)
    → length v ≡ 15
    → OneOff v w
    → gstin_checksum_ok v ≡ true
    → gstin_checksum_ok w ≡ true
    → ⊥
gstin_checksum_ok-OneOff v w size d ok_v ok_w =
    let (s, p, cv) = checksum-ok v ok_v in
    let (t, q, cw) = checksum-ok w ok_w in
    elim (sums_differ 14 0 0 v w d p q) [
      | inl (ne, same) ↦
          let last : byte_at v 14 ≡ byte_at w 14 = ap (λ r. byte_at r 0) same in
          let agree =
            b36_injective ((36 - s % 36) % 36) ((36 - t % 36) % 36) (omega arith) (omega arith)
              (sym cv ∙ last ∙ cw) in
          ne (omega arith)
      | inr (same, rest) ↦
          last_differs (drop 14 v) (drop 14 w) (omega (arith, length-drop 14 v)) rest
            (cv ∙ ap check same ∙ sym cw)
    ]

-- What is not refused has 15 bytes and its check character.
gstin_failure-none :
    (v : Bytes) → gstin_failure v ≡ none → (length v ≡ 15) × (gstin_checksum_ok v ≡ true)
unfolding gstin_failure
gstin_failure-none v e = ground arith

accept_or-none :
    (field v : Bytes) (e : Errors) (o : Option Code) → (accept_or field e v o).1 ≡ e → o ≡ none
unfolding accept_or refuse add_error
accept_or-none field v e none h = refl
accept_or-none field v e (some c) h =
    let added = length-append e (record { field = field; failure = c } ∷ []) in
    absurd (omega (arith, added, ap length h))

-- A refusal empties the value and adds one failure under the field's name.
abbrev pub Refused : (field : Bytes) → Errors → Bytes × Errors → Type 0
Refused field e r = (c : Code) × (r ≡ refuse field c e)

module _ (clean : Clean) where
  -- Where `GSTIN` reports no failure for a text, it refuses every text that, cleaned, differs from
  -- the first in exactly one byte.
  pub gstin-OneOff :
      (field v w : Bytes) (e f : Errors)
      → (gstin clean field v e).1 ≡ e
      → OneOff (clean.upper (clean.trim v)) (clean.upper (clean.trim w))
      → Refused field f (gstin clean field w f)
  unfolding gstin accept_or
  gstin-OneOff field v w e f accepted d =
      let s = clean.upper (clean.trim v) in
      let t = clean.upper (clean.trim w) in
      let (size, ok_s) =
        gstin_failure-none s (accept_or-none field s e (gstin_failure s) accepted) in
      elim (Option-cases (gstin_failure t)) [
        | inl passes ↦
            absurd (gstin_checksum_ok-OneOff s t size d ok_s ((gstin_failure-none t passes).1))
        | inr (c, fails) ↦ (c, rw (fails, accept_or) refl)
      ]
