-- ===== src/Ranking/Tests.antt =====
-- The formula of internal/modules/ranking/ranking.go on given listings.
use market_place.Prelude.{ℕ, ◌≤◌, ◌≡◌, refl, true, some, List, [], ◌∷◌, map, arith}
use market_place.Ranking.Formula.{
  published, hour, QualityGate, Input, Scored, failures, decay_factor, exposure_factor, recency,
  score,
}
use market_place.Ranking.Sorting.{precedes, insert, sort_stable, with_key, order}
use market_place.Ranking.Exposure.{score_antitone}
use market_place.Ranking.Reproducible.{here, there, swap, IsCatalogue, order-Reordered}

abbrev met : QualityGate
met = record {
  seller_kyc_verified = true;
  all_assets_scanned = true;
  ai_disclosure_given = true;
  has_preview = true;
  description_adequate = true;
  not_under_moderation = true;
  refund_rate_acceptable = true;
}

abbrev listing : (rank : ℕ) → Input
listing rank = record {
  product_id = 1 ∷ [];
  seller_id = 9 ∷ [];
  anchor_at = 0;
  gate = met;
  seller_rank = rank;
}

-- A curve that stays at its highest.
abbrev flat : (age half_life_hours : ℕ) → ℕ
flat age half_life = 1_000_000

abbrev scored : (id band final factor rank : ℕ) → Scored
scored id band final factor rank = record {
  product = id ∷ [];
  seller = 9 ∷ [];
  recency_score = 1_000_000;
  gate_passed = true;
  gate_failures = [];
  exposure_rank = rank;
  factor_bps = factor;
  band = band;
  final_score = final;
  shuffle = 0;
}

third : score flat published (listing 3) hour ≡ some (scored 1 200 1_000_000 10_000 3)
unfolding score failures recency exposure_factor
third = refl

fifth : score flat published (listing 5) hour ≡ some (scored 1 98 490_000 4900 5)
unfolding score failures recency exposure_factor decay_factor
fifth = refl

abbrev two_listings : List Scored
two_listings = scored 1 98 490_000 4900 5 ∷ (scored 2 200 1_000_000 10_000 3 ∷ [])

higher_band_first : map (λ r. r.product) (order two_listings 7) ≡ (2 ∷ []) ∷ ((1 ∷ []) ∷ [])
unfolding order sort_stable insert precedes with_key
higher_band_first = refl

two_ids : IsCatalogue two_listings
two_ids a _ here here e = refl
two_ids a _ here (there here) e = absurd (cc)
two_ids a _ (there here) here e = absurd (cc)
two_ids a _ (there here) (there here) e = refl
two_ids _ b here (there (there m)) e = elim m [ ]
two_ids _ b (there here) (there (there m)) e = elim m [ ]
two_ids a b (there (there m)) _ e = elim m [ ]

score_antitone_example : (490_000 ≤ 1_000_000) × (98 ≤ 200) × (1_000_000 ≤ 1_000_000)
score_antitone_example =
    score_antitone flat published (listing 3) (listing 5) hour (scored 1 200 1_000_000 10_000 3)
      (scored 1 98 490_000 4900 5) (omega arith) refl refl (omega arith) third fifth

order-Reordered_example :
    order two_listings 7
    ≡ order (scored 2 200 1_000_000 10_000 3 ∷ (scored 1 98 490_000 4900 5 ∷ [])) 7
order-Reordered_example =
    order-Reordered two_listings
      (scored 2 200 1_000_000 10_000 3 ∷ (scored 1 98 490_000 4900 5 ∷ [])) 7 two_ids
      (swap (scored 1 98 490_000 4900 5) (scored 2 200 1_000_000 10_000 3) [])
