-- ===== src/Provenance/Routed.antt =====
-- When `Assess`, of internal/modules/provenance/provenance.go, lets a listing go out without a person's look.
use market_place.Prelude.{
  ◌≡◌, ◌⊎◌, refl, sym, ap, ◌∙◌, subst, inl, inr, Bool-cases, Bool, true, false, not, ◌&&◌, ℤ, pos,
  negsuc, ◌+ℤ◌, ◌≤ℤ◌, leb_ℤ, int_laws, +ℤ_assoc, List, [], ◌∷◌, ◌++◌, map, arith,
}
use market_place.Bytes.{Bytes}
use market_place.Provenance.Assess.{
  Disclosure, is_declared, declares_ai, is_generated, Signals, Reason, Weighted, publish, review,
  priority_review, when, credentials, is_blank, tool, conflicts_of, evidence, moved, clamp, none_of,
  assess, remark, editable_source, understated, no_signals,
}

moved-append : (xs ys : List Weighted) → moved (xs ++ ys) ≡ moved xs +ℤ moved ys
unfolding moved
moved-append [] ys = omega int_laws
moved-append (x ∷ xs) ys =
    ap (λ t. x.0 +ℤ t) (moved-append xs ys) ∙ sym (+ℤ_assoc (x.0) (moved xs) (moved ys))

moved-remarks : (ns : List Bytes) → moved (map (λ n. (pos 0, remark n)) ns) ≡ pos 0
unfolding moved ◌+ℤ◌
moved-remarks [] = refl
moved-remarks (n ∷ ns) =
    let rest : moved (map (λ n. (pos 0, remark n)) ns) ≡ pos 0 = moved-remarks ns in
    ap (λ t. pos 0 +ℤ t) rest

-- How much the credentials and the tool may move the score.
credentials_le :
    (present intact bound : Bool) (issuer : Bytes)
    → (present && intact) ≡ false
    → moved (credentials present intact bound issuer) ≤ℤ pos 0
unfolding moved credentials
credentials_le true true bound issuer e = absurd (cc)
credentials_le true false true issuer e = omega int_laws
credentials_le true false false issuer e = omega int_laws
credentials_le false intact bound issuer e = omega int_laws

tool_le :
    (indicates_ai declared : Bool) (hint : Bytes)
    → moved (tool indicates_ai declared hint) ≤ℤ pos 10
unfolding moved tool
tool_le true true hint = omega int_laws
tool_le true false hint = omega int_laws
tool_le false declared [] = omega int_laws
tool_le false declared (b ∷ hint) = omega int_laws

when_zero : (b : Bool) (r : Reason) → moved (when b (pos 0, r)) ≡ pos 0
unfolding moved ◌+ℤ◌
when_zero true r = refl
when_zero false r = refl

not_understated : (a b : Bool) (w : Weighted) → moved (when (a && (false && b)) w) ≡ pos 0
unfolding moved
not_understated true b w = refl
not_understated false b w = refl

not_moved : (w : Weighted) → moved (when false w) ≡ pos 0
unfolding moved
not_moved w = refl

moved_parts :
    (c p t u v r : List Weighted)
    → moved (c ++ (p ++ (t ++ (u ++ (v ++ r)))))
      ≡ moved c +ℤ (moved p +ℤ (moved t +ℤ (moved u +ℤ (moved v +ℤ moved r))))
moved_parts c p t u v r =
    moved-append c (p ++ (t ++ (u ++ (v ++ r))))
    ∙ ap (λ z. moved c +ℤ z)
        (moved-append p (t ++ (u ++ (v ++ r)))
          ∙ ap (λ z. moved p +ℤ z)
              (moved-append t (u ++ (v ++ r))
                ∙ ap (λ z. moved t +ℤ z)
                    (moved-append u (v ++ r) ∙ ap (λ z. moved u +ℤ z) (moved-append v r))))

parts_le :
    (c p t u v r : ℤ)
    → c ≤ℤ pos 0
    → p ≡ pos 0
    → t ≤ℤ pos 10
    → u ≡ pos 0
    → v ≡ pos 0
    → r ≡ pos 0
    → c +ℤ (p +ℤ (t +ℤ (u +ℤ (v +ℤ r)))) ≤ℤ pos 10
parts_le c p t u v r c_le p_0 t_le u_0 v_0 r_0 =
    rw (p_0, u_0, v_0, r_0) (omega (int_laws, c_le, t_le))

-- Without intact credentials and without a source project, the score rises by 10 at most.
evidence_le :
    (d : Disclosure) (s : Signals)
    → s.has_source_project ≡ false
    → (s.c2pa_present && s.c2pa_intact) ≡ false
    → moved (evidence d s) ≤ℤ pos 10
unfolding evidence
evidence_le d s no_source no_credentials = rw (no_source) (
    subst (λ m. m ≤ℤ pos 10) (sym (moved_parts _ _ _ _ _ _))
      (parts_le _ _ _ _ _ _
        (credentials_le (s.c2pa_present) (s.c2pa_intact) (s.c2pa_binding_valid) (s.c2pa_issuer)
          no_credentials)
        (not_moved (pos 20, editable_source (s.source_project_kinds)))
        (tool_le (s.generator_hint_indicates_ai) (declares_ai d) (s.generator_hint))
        (not_understated (declares_ai d) (is_generated d) (pos 5, understated))
        (when_zero (not (s.c2pa_present) && (is_blank (s.generator_hint) && true)) no_signals)
        (moved-remarks (s.remarks))))

-- `Assess` only publishes what has no conflict, what is declared, and what scores 70.
published_lem :
    (d : Disclosure) (s : Signals)
    → (assess d s).routing ≡ publish
    → (none_of (conflicts_of d s) ≡ true)
      × (is_declared d ≡ true)
      × (leb_ℤ (pos 70) (clamp (pos 50 +ℤ moved (evidence d s)) (pos 0) (pos 100)) ≡ true)
unfolding assess
published_lem d s e = elim (Bool-cases (none_of (conflicts_of d s))) [
  | inr conflicting ↦ absurd (let bad : priority_review ≡ publish = rw (conflicting) at e in cc)
  | inl clear ↦ elim (Bool-cases (is_declared d)) [
    | inr undisclosed ↦ absurd (let bad : review ≡ publish = rw (clear, undisclosed) at e in cc)
    | inl declared ↦
        elim (Bool-cases
          (leb_ℤ (pos 70) (clamp (pos 50 +ℤ moved (evidence d s)) (pos 0) (pos 100)))) [
            | inl high ↦ (clear, declared, high)
            | inr low ↦ absurd (let bad : review ≡ publish = rw (clear, declared, low) at e in cc)
          ]
  ]
]

clamp_low : (x : ℤ) → x ≤ℤ pos 60 → leb_ℤ (pos 70) (clamp x (pos 0) (pos 100)) ≡ false
unfolding clamp
clamp_low (pos n) le = ground arith
clamp_low (negsuc n) le = ground arith

-- 70 is out of reach of what rises by 10.
low_score : (m : ℤ) → m ≤ℤ pos 10 → leb_ℤ (pos 70) (clamp (pos 50 +ℤ m) (pos 0) (pos 100)) ≡ false
low_score m le = clamp_low (pos 50 +ℤ m) (omega (int_laws, le))

-- A listing that `Assess` routes to publication is declared, its declaration does not conflict with
-- the metadata, and there is evidence of process: intact Content Credentials or editable source.
pub assess_publish :
    (d : Disclosure) (s : Signals)
    → (assess d s).routing ≡ publish
    → (is_declared d ≡ true)
      × (none_of (conflicts_of d s) ≡ true)
      × ((s.has_source_project ≡ true) ⊎ ((s.c2pa_present && s.c2pa_intact) ≡ true))
assess_publish d s e =
    let (clear, declared, high) = published_lem d s e in
    (
      declared,
      clear,
      (elim (Bool-cases (s.has_source_project)) [
        | inl source ↦ inl source
        | inr no_source ↦ elim (Bool-cases (s.c2pa_present && s.c2pa_intact)) [
          | inl credentials ↦ inr credentials
          | inr nothing ↦
              let low = low_score (moved (evidence d s)) (evidence_le d s no_source nothing) in
              absurd (let bad : true ≡ false = sym high ∙ low in cc)
        ]
      ]),
    )
