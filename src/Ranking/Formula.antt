-- ===== src/Ranking/Formula.antt =====
-- The published formula of internal/modules/ranking/ranking.go: the quality gate, the exposure cap, `Score` and
-- the shuffle key. Times are nanoseconds; the texts of the explanation are left out.
use market_place.Prelude.{
  ℕ, zero, suc, ◌+◌, ◌-◌, ◌*◌, ◌/◌, ◌%◌, ◌^◌, Bool, true, false, if◌then◌else◌, leb, ◌==◌, Option,
  none, some, List, [], ◌∷◌, ◌++◌,
}
use market_place.Bytes.{Bytes}

-- `Parameters`; the maximal age is a whole number of days.
pub record Parameters : Type 0 where
  pub half_life_hours : ℕ
  pub max_age_days : ℕ
  pub exposure_cap_per_seller : ℕ
  pub exposure_decay_bps : ℕ
  pub band_width : ℕ
  pub seed_rotation : ℕ

abbrev pub hour : ℕ
hour = 3_600_000_000_000

-- `Published`
abbrev pub published : Parameters
published = record {
  half_life_hours = 72;
  max_age_days = 365;
  exposure_cap_per_seller = 3;
  exposure_decay_bps = 7000;
  band_width = 5000;
  seed_rotation = 24 * hour;
}

-- `QualityGate`
pub record QualityGate : Type 0 where
  pub seller_kyc_verified : Bool
  pub all_assets_scanned : Bool
  pub ai_disclosure_given : Bool
  pub has_preview : Bool
  pub description_adequate : Bool
  pub not_under_moderation : Bool
  pub refund_rate_acceptable : Bool

-- The conditions, in place of the words for them.
pub data Condition : Type 0 where
  identity scanning disclosure preview description moderation refunds : Condition

abbrev pub unless : Bool → Condition → List Condition
unless true c = []
unless false c = c ∷ []

-- `Failures`
unfoldable pub failures : QualityGate → List Condition
failures q =
    unless (q.seller_kyc_verified) identity
    ++ (unless (q.all_assets_scanned) scanning
        ++ (unless (q.ai_disclosure_given) disclosure
            ++ (unless (q.has_preview) preview
                ++ (unless (q.description_adequate) description
                    ++ (unless (q.not_under_moderation) moderation
                        ++ unless (q.refund_rate_acceptable) refunds)))))

abbrev pub is_empty : List Condition → Bool
is_empty [] = true
is_empty (c ∷ cs) = false

-- `Passed`
abbrev pub passed : QualityGate → Bool
passed q = is_empty (failures q)

-- The loop of `exposureFactor`, for so many listings beyond the cap; at 0 it returns at once.
unfoldable pub decay_factor : (decay_bps : ℕ) → (beyond factor : ℕ) → ℕ
decay_factor decay_bps zero factor = factor
decay_factor decay_bps (suc n) factor =
    let rest = decay_factor decay_bps n (factor * decay_bps / 10_000) in
    if factor * decay_bps / 10_000 == 0 then 0 else rest

-- `exposureFactor`
unfoldable pub exposure_factor : Parameters → (seller_rank : ℕ) → ℕ
exposure_factor p seller_rank =
    if leb seller_rank (p.exposure_cap_per_seller)
    then 10_000
    else decay_factor (p.exposure_decay_bps) (seller_rank - p.exposure_cap_per_seller) 10_000

-- `Input`
pub record Input : Type 0 where
  pub product_id : Bytes
  pub seller_id : Bytes
  pub anchor_at : ℕ
  pub gate : QualityGate
  pub seller_rank : ℕ

-- `Result`
pub record Scored : Type 0 where
  pub product : Bytes
  pub seller : Bytes
  pub recency_score : ℕ
  pub gate_passed : Bool
  pub gate_failures : List Condition
  pub exposure_rank : ℕ
  pub factor_bps : ℕ
  pub band : ℕ
  pub final_score : ℕ
  pub shuffle : ℕ

-- `binary xor` on so many bits.
abbrev pub xor : (bits a b : ℕ) → ℕ
xor zero a b = 0
xor (suc n) a b = (a % 2 + b % 2) % 2 + 2 * xor n (a / 2) (b / 2)

-- The finaliser of splitmix64, on 64 bits.
unfoldable pub finalise : ℕ → ℕ
finalise h =
    let z = xor 64 h (h / 2 ^ 30) * 0xBF58_476D_1CE4_E5B9 % 2 ^ 64 in
    let y = xor 64 z (z / 2 ^ 27) * 0x94D0_49BB_1331_11EB % 2 ^ 64 in xor 64 y (y / 2 ^ 31)

-- The loop over the bytes of the id.
unfoldable pub mix : ℕ → Bytes → ℕ
mix h [] = h
mix h (b ∷ bs) = mix (xor 64 h b * 1_099_511_628_211 % 2 ^ 64) bs

-- `shuffleKey`
unfoldable pub shuffle_key : (seed : ℕ) → Bytes → ℕ
shuffle_key seed id = finalise ((mix seed id + 0x9E37_79B9_7F4A_7C15) % 2 ^ 64)

-- A result before its position is known, and one that the gate keeps out.
abbrev pub unranked : Input → (recency : ℕ) → Scored
unranked input recency = record {
  product = input.product_id;
  seller = input.seller_id;
  recency_score = recency;
  gate_passed = false;
  gate_failures = failures (input.gate);
  exposure_rank = input.seller_rank;
  factor_bps = 0;
  band = 0;
  final_score = 0;
  shuffle = 0;
}

-- A result that passes, in bands of a width; a width of 0 panics.
abbrev pub ranked : Input → (recency factor width : ℕ) → Option Scored
ranked input recency factor zero = none
ranked input recency factor (suc w) = some (record {
  product = input.product_id;
  seller = input.seller_id;
  recency_score = recency;
  gate_passed = true;
  gate_failures = failures (input.gate);
  exposure_rank = input.seller_rank;
  factor_bps = factor;
  band = recency * factor / 10_000 / (suc w);
  final_score = recency * factor / 10_000;
  shuffle = 0;
})

-- The decay curve, 1,000,000 * 2^(-age/halfLife) rounded down, is floating-point: a parameter.
module _ (decay_curve : (age half_life_hours : ℕ) → ℕ) where
  -- The recency of a listing; an anchor in the future counts as now.
  unfoldable pub recency : Parameters → (anchor_at now : ℕ) → ℕ
  recency p anchor_at now =
      if leb (p.max_age_days * 24 * hour) (now - anchor_at)
      then 0
      else decay_curve (now - anchor_at) (p.half_life_hours)

  -- `Score`
  unfoldable pub score : Parameters → Input → (now : ℕ) → Option Scored
  score p input now =
      if passed (input.gate)
      then ranked input (recency p (input.anchor_at) now) (exposure_factor p (input.seller_rank))
          (p.band_width)
      else some (unranked input (recency p (input.anchor_at) now))
