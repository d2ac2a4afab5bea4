-- ===== src/Ranking/Exposure.antt =====
-- What the exposure cap and the gate of internal/modules/ranking/ranking.go do to a score.
use native.Mathlib.Nat.{mul-le-mul_left, mul-le-mul_right, div-mul-le_self, le-div_iff_mul-le}
use market_place.Prelude.{
  ℕ, zero, suc, ◌-◌, ◌*◌, ◌/◌, ◌<◌, ◌≤◌, ◌≡◌, refl, sym, ap, ◌∙◌, inl, inr, Bool-cases, true, false,
  Option, none, some, arith,
}
use market_place.Ranking.Formula.{
  Parameters, Input, Scored, passed, decay_factor, exposure_factor, recency, score, ranked,
}

-- One more listing beyond the cap does not weigh more.
decay_le : (d f : ℕ) → d ≤ 10_000 → f * d / 10_000 ≤ f
decay_le d f small = let bound = mul-le-mul_left f small in omega (arith, bound)

scaled_le : (d f g : ℕ) → f ≤ g → f * d / 10_000 ≤ g * d / 10_000
scaled_le d f g le = let bound = mul-le-mul_right d le in omega (arith, bound)

div_mono : (a b w : ℕ) → 0 < w → a ≤ b → a / w ≤ b / w
div_mono a b w positive le =
    let bound = div-mul-le_self a w in (le-div_iff_mul-le positive).1 (omega (arith, bound))

decay_factor_lem :
    (d n m f g : ℕ) → d ≤ 10_000 → n ≤ m → g ≤ f → decay_factor d m g ≤ decay_factor d n f
unfolding decay_factor
decay_factor_lem d zero zero f g small le down = down
decay_factor_lem d (suc n) zero f g small le down = absurd (omega arith)
decay_factor_lem d zero (suc m) f g small le down =
    let less = decay_le d g small in
    ground (arith, less, decay_factor_lem d zero m f (g * d / 10_000) small)
decay_factor_lem d (suc n) (suc m) f g small le down =
    let less = scaled_le d g f down in
    ground (arith, less, decay_factor_lem d n m (f * d / 10_000) (g * d / 10_000) small)

-- A listing further down among its seller's weighs no more, and none weighs more than in full.
exposure_factor_antitone :
    (p : Parameters) (rank rank' : ℕ)
    → p.exposure_decay_bps ≤ 10_000
    → rank ≤ rank'
    → (exposure_factor p rank' ≤ exposure_factor p rank) × (exposure_factor p rank ≤ 10_000)
unfolding exposure_factor
exposure_factor_antitone p rank rank' small le =
    let cap = p.exposure_cap_per_seller in
    let d = p.exposure_decay_bps in
    let from =
      decay_factor_lem d (rank - cap) (rank' - cap) 10_000 10_000 small (omega arith)
        (omega arith) in
    let full = full_weight d (rank - cap) small in
    let full' = full_weight d (rank' - cap) small in
    (ground (arith, from, full, full'), ground (arith, full))
  where
    full_weight : (d n : ℕ) → d ≤ 10_000 → decay_factor d n 10_000 ≤ 10_000
    full_weight d n small =
        unfold decay_factor in
        decay_factor_lem d zero n 10_000 10_000 small (omega arith) (omega arith)

-- The fields of a result that may be missing.
abbrev final_of : Option Scored → ℕ
final_of none = 0
final_of (some r) = r.final_score

abbrev band_of : Option Scored → ℕ
band_of none = 0
band_of (some r) = r.band

abbrev recency_of : Option Scored → ℕ
recency_of none = 0
recency_of (some r) = r.recency_score

module _ (decay_curve : (age half_life_hours : ℕ) → ℕ) where
  -- What the formula makes of a listing: it is kept out, or it has a score and a band.
  data IsScored (p : Parameters) (input : Input) (now : ℕ) (r : Scored) : Type 0 where
    kept_out : passed (input.gate) ≡ false → r.final_score ≡ 0 → r.band ≡ 0 → IsScored p input now r
    placed :
        (width : ℕ)
        → 0 < width
        → passed (input.gate) ≡ true
        → p.band_width ≡ width
        → r.final_score
          ≡ recency decay_curve p (input.anchor_at) now
            * exposure_factor p (input.seller_rank)
            / 10_000
        → r.band ≡ r.final_score / width
        → r.recency_score ≡ recency decay_curve p (input.anchor_at) now
        → IsScored p input now r

  ranked-IsScored :
      (p : Parameters) (input : Input) (now width : ℕ) (r : Scored)
      → passed (input.gate) ≡ true
      → p.band_width ≡ width
      → ranked input
          (recency decay_curve p (input.anchor_at) now)
          (exposure_factor p (input.seller_rank))
          width
        ≡ some r
      → IsScored p input now r
  ranked-IsScored p input now zero r pass w e = absurd (cc)
  ranked-IsScored p input now (suc n) r pass w e =
      placed (suc n) (omega arith) pass w (sym (ap (λ x. final_of x) e))
        (sym (ap (λ x. band_of x) e) ∙ ap (λ n'. n' / suc n) (ap (λ x. final_of x) e))
        (sym (ap (λ x. recency_of x) e))

  score-IsScored :
      (p : Parameters) (input : Input) (now : ℕ) (r : Scored)
      → score decay_curve p input now ≡ some r
      → IsScored p input now r
  unfolding score
  score-IsScored p input now r e = elim (Bool-cases (passed (input.gate))) [
    | inl pass ↦ ranked-IsScored p input now (p.band_width) r pass refl (rw (pass) at e)
    | inr out ↦
        let e' = rw (out) at e in
        kept_out out (sym (ap (λ x. final_of x) e')) (sym (ap (λ x. band_of x) e'))
  ]

  antitone_lem :
      (p : Parameters) (upper lower : Input) (now : ℕ) (r s : Scored)
      → p.exposure_decay_bps ≤ 10_000
      → upper.gate ≡ lower.gate
      → upper.anchor_at ≡ lower.anchor_at
      → upper.seller_rank ≤ lower.seller_rank
      → IsScored p upper now r
      → IsScored p lower now s
      → (s.final_score ≤ r.final_score) × (s.band ≤ r.band) × (r.final_score ≤ r.recency_score)
  antitone_lem p upper lower now r s small same_gate same_anchor le (kept_out out none_r none_b)
        (kept_out out' none_s none_c) =
      (omega (arith, none_r, none_s), omega (arith, none_b, none_c), omega (arith, none_r))
  antitone_lem p upper lower now r s small same_gate same_anchor le (kept_out out none_r none_b)
        (placed w positive pass width final band age) =
      absurd (let both : true ≡ false = sym pass ∙ (ap (λ g. passed g) (sym same_gate) ∙ out) in cc)
  antitone_lem p upper lower now r s small same_gate same_anchor le
        (placed w positive pass width final band age) (kept_out out none_s none_c) =
      absurd (let both : true ≡ false = sym pass ∙ (ap (λ g. passed g) same_gate ∙ out) in cc)
  antitone_lem p upper lower now r s small same_gate same_anchor le
        (placed w positive pass width final band age) (placed w' _ pass' width' final' band' age') =
      let (fewer, full) =
        exposure_factor_antitone p (upper.seller_rank) (lower.seller_rank) small le in
      let at : recency decay_curve p (lower.anchor_at) now
          ≡ recency decay_curve p (upper.anchor_at) now =
        ap (λ t. recency decay_curve p t now) (sym same_anchor) in
      let weighs = mul-le-mul_left (recency decay_curve p (upper.anchor_at) now) fewer in
      let most =
        decay_le (exposure_factor p (upper.seller_rank))
          (recency decay_curve p (upper.anchor_at) now) full in
      let lower_final : s.final_score
          ≡ recency decay_curve p (upper.anchor_at) now
            * exposure_factor p (lower.seller_rank)
            / 10_000 =
        final' ∙ ap (λ a. a * exposure_factor p (lower.seller_rank) / 10_000) at in
      let score_le : s.final_score ≤ r.final_score = omega (arith, lower_final, final, weighs) in
      let one_width : w' ≡ w = sym width' ∙ width in
      (
        score_le,
        rw (band, band', one_width) (div_mono (s.final_score) (r.final_score) w positive score_le),
        omega (arith, final, age, most),
      )

  -- A score of a listing further down among the same seller's is no higher, for the same age and
  -- gate, and no score is above the listing's recency.
  pub score_antitone :
      (p : Parameters) (upper lower : Input) (now : ℕ) (r s : Scored)
      → p.exposure_decay_bps ≤ 10_000
      → upper.gate ≡ lower.gate
      → upper.anchor_at ≡ lower.anchor_at
      → upper.seller_rank ≤ lower.seller_rank
      → score decay_curve p upper now ≡ some r
      → score decay_curve p lower now ≡ some s
      → (s.final_score ≤ r.final_score) × (s.band ≤ r.band) × (r.final_score ≤ r.recency_score)
  score_antitone p upper lower now r s small same_gate same_anchor le e f =
      antitone_lem p upper lower now r s small same_gate same_anchor le
        (score-IsScored p upper now r e) (score-IsScored p lower now s f)
