-- ===== src/Tax/Stages.antt =====
-- The sections of `Compute` on a price that is not negative: each ends with an error that does not
-- come from `Verify`, or with amounts that are natural and exactly rounded.
use market_place.Prelude.{
  ap, ◌≤◌, ◌≡◌, refl, ℤ, pos, pos_part, neg_part, false, if◌then◌else◌, ltb_ℤ, Bool-cases, inl, inr,
  List, [], ◌∷◌, ok, err, arith, wrap, ◌+ℤ◌, ◌-ℤ◌, int_laws, Ends, returns, bind-Ends, refuse-Ends,
  Ends-intro, weaken-Ends, neg64, wrap64,
}
use market_place.Money.Types.{Money, Currency, zero_of}
use market_place.Money.Wide.{div64}
use market_place.Money.Arith.{sum, sub}
use market_place.Money.Sums.{IsNatural, AreNatural, total}
use market_place.Tax.Types.{
  TaxError, of_money, Policy, Seller, SupplyKind, intra_state, inter_state, export_of_services,
  exempt, TdsReason,
}
use market_place.Tax.Rules.{
  outside, validate, levy, Gst, charge_gst, Tcs, collects_tcs, tcs_parts, collect_tcs, tds_rate,
  Tds, reason_panics, levy_tds, deduct_tds,
}
use market_place.Tax.Compute.{deduct}
use market_place.Tax.Levies.{IsForeseen, IsRate, IsLevy, IsAmount, levy-Ends, sum-Ends, sub-Ends}

-- From 0 to 10,000 basis points.
abbrev pub IsBps : ℤ → Type 0
IsBps x = (neg_part x ≡ 0) × (pos_part x ≤ 10_000)

pub outside-IsBps : (x : ℤ) → outside x (pos 0) (pos 10_000) ≡ false → IsBps x
outside-IsBps x h = ground arith

pub IsBps-IsRate : (x : ℤ) → IsBps x → IsRate x
IsBps-IsRate x h = omega arith

pub record IsValidPolicy (p : Policy) : Type 0 where
  pub gst : IsBps p.gst_bps
  pub commission_gst : IsBps p.commission_gst_bps
  pub tcs : IsBps p.tcs_bps
  pub tds : IsBps p.tds_bps
  pub tds_no_pan : IsBps p.tds_no_pan_bps

validate_ok : (p : Policy) → validate p ≡ ok tt → IsValidPolicy p
unfolding validate
validate_ok p e = ground arith

validate_err : (p : Policy) (e : TaxError) → validate p ≡ err e → IsForeseen e
unfolding validate
validate_err p e h = ground arith

pub validate-Ends : (p : Policy) → Ends IsForeseen (λ _. IsValidPolicy p) (validate p)
validate-Ends p = Ends-intro (validate p) (λ _ e. validate_ok p e) (validate_err p)

-- The GST components by the place of supply.
abbrev pub IsGst : Policy → SupplyKind → Money → Gst → Type 0
IsGst p intra_state price g =
    IsLevy price (div64 p.gst_bps (pos 2)) g.cgst
    × (g.sgst ≡ g.cgst)
    × (g.igst.minor ≡ pos 0)
    × (g.rate_bps ≡ p.gst_bps)
IsGst p inter_state price g =
    IsLevy price p.gst_bps g.igst
    × (g.cgst.minor ≡ pos 0)
    × (g.sgst.minor ≡ pos 0)
    × (g.rate_bps ≡ p.gst_bps)
IsGst p _ price g =
    (g.igst.minor ≡ pos 0) × (g.cgst.minor ≡ pos 0) × (g.sgst.minor ≡ pos 0) × (g.rate_bps ≡ pos 0)

abbrev pub AreGst : Currency → Gst → Type 0
AreGst c g = IsNatural c g.cgst × IsNatural c g.sgst × IsNatural c g.igst

half-IsRate : (x : ℤ) → IsBps x → IsRate (div64 x (pos 2))
unfolding div64 wrap64 neg64
half-IsRate x h = ground arith

zero-IsNatural : {c : Currency} (m : Money) → IsNatural c m → IsNatural c (zero_of m.cur)
zero-IsNatural m h = (h.0, refl, omega arith)

pub charge_gst-Ends :
    {c : Currency} (p : Policy) (supply : SupplyKind) (price : Money)
    → IsValidPolicy p
    → IsNatural c price
    → Ends IsForeseen (λ g. AreGst c g × IsGst p supply price g) (charge_gst p supply price)
unfolding charge_gst
charge_gst-Ends p exempt price v h =
    let z = zero-IsNatural price h in returns _ ((z, z, z), (refl, refl, refl, refl))
charge_gst-Ends p export_of_services price v h =
    let z = zero-IsNatural price h in returns _ ((z, z, z), (refl, refl, refl, refl))
charge_gst-Ends p intra_state price v h =
    let z = zero-IsNatural price h in
    bind-Ends (levy price (div64 p.gst_bps (pos 2)))
      (levy-Ends price _ h (half-IsRate p.gst_bps v.gst))
      λ c (natural, exact). returns _ ((natural, natural, z), (exact, refl, refl, refl))
charge_gst-Ends p inter_state price v h =
    let z = zero-IsNatural price h in
    bind-Ends (levy price p.gst_bps) (levy-Ends price _ h (IsBps-IsRate _ v.gst))
      λ i (natural, exact). returns _ ((z, z, natural), (exact, refl, refl, refl))

-- The parts of the tax collected at source by the place of supply.
abbrev pub IsTcs : Policy → SupplyKind → Money → Money × Money × Money → Type 0
IsTcs p intra_state price (c, g, i) =
    IsLevy price (div64 p.tcs_bps (pos 2)) c × (g ≡ c) × (i.minor ≡ pos 0)
IsTcs p _ price (c, g, i) = IsLevy price p.tcs_bps i × (c.minor ≡ pos 0) × (g.minor ≡ pos 0)

abbrev AreParts : Currency → Money × Money × Money → Type 0
AreParts c (x, y, z) = IsNatural c x × IsNatural c y × IsNatural c z

tcs_parts-Ends :
    {c : Currency} (p : Policy) (supply : SupplyKind) (price : Money)
    → IsValidPolicy p
    → IsNatural c price
    → Ends IsForeseen (λ t. AreParts c t × IsTcs p supply price t) (tcs_parts p supply price)
unfolding tcs_parts
tcs_parts-Ends p intra_state price v h =
    let z = zero-IsNatural price h in
    bind-Ends (levy price (div64 p.tcs_bps (pos 2)))
      (levy-Ends price _ h (half-IsRate p.tcs_bps v.tcs))
      λ c (natural, exact). returns _ ((natural, natural, z), (exact, refl, refl))
tcs_parts-Ends p supply price v h =
    let z = zero-IsNatural price h in
    bind-Ends (levy price p.tcs_bps) (levy-Ends price _ h (IsBps-IsRate _ v.tcs))
      λ i (natural, exact). returns _ ((z, z, natural), (exact, refl, refl))

-- All of the tax collected at source: nothing, or the parts and their sum.
abbrev pub IsCollected : Policy → Seller → SupplyKind → Money → Tcs → Type 0
IsCollected p s supply price t =
    (t.tcs.minor ≡ total (t.cgst ∷ t.sgst ∷ t.igst ∷ []))
    × (if collects_tcs p s supply
        then IsTcs p supply price (t.cgst, t.sgst, t.igst) × (t.bps ≡ p.tcs_bps)
        else (t.tcs.minor ≡ pos 0) × (t.igst.minor ≡ pos 0) × (t.bps ≡ pos 0))

abbrev pub AreTcs : Currency → Tcs → Type 0
AreTcs c t = IsNatural c t.cgst × IsNatural c t.sgst × IsNatural c t.igst × IsNatural c t.tcs

pub collect_tcs-Ends :
    {c : Currency} (p : Policy) (s : Seller) (supply : SupplyKind) (price : Money)
    → IsValidPolicy p
    → IsNatural c price
    → Ends IsForeseen
        (λ t. AreTcs c t × IsCollected p s supply price t)
        (collect_tcs p s supply price)
unfolding collect_tcs
collect_tcs-Ends p s supply price v h = elim (Bool-cases (collects_tcs p s supply)) [
  | inl due ↦ rw due (
      bind-Ends (tcs_parts p supply price) (tcs_parts-Ends p supply price v h)
        λ (x, y, z) ((nx, ny, nz), exact).
          bind-Ends (wrap of_money (sum (x ∷ y ∷ z ∷ [])))
            (sum-Ends x (y ∷ z ∷ []) (nx, (ny, (nz, tt))))
            λ t (natural, added). returns _ ((nx, ny, nz, natural), (added, (exact, refl))))
  | inr free ↦
      let z = zero-IsNatural price h in
      rw free (returns _ ((z, z, z, z), (omega int_laws, (refl, refl, refl))))
]

-- The TDS is the line's price at the rate that applies.
abbrev pub IsTds : Policy → Seller → Money → Tds → Type 0
IsTds p s price t =
    IsLevy price (tds_rate p s price).0 t.tds
    × (t.bps ≡ (tds_rate p s price).0)
    × (t.reason ≡ (tds_rate p s price).1)

tds_rate-IsRate :
    (p : Policy) (s : Seller) (price : Money) → IsValidPolicy p → IsRate (tds_rate p s price).0
unfolding tds_rate
tds_rate-IsRate p s price v = ground arith

-- A rate that is 0 levies nothing.
zero-IsLevy :
    (m : Money) (rate : ℤ)
    → IsRate rate
    → ltb_ℤ (pos 0) rate ≡ false
    → IsLevy m rate (zero_of m.cur)
zero-IsLevy m rate h free = let none : pos_part rate ≡ 0 = ground arith in rw none (omega arith)

rate_zero : (rate : ℤ) → IsRate rate → ltb_ℤ (pos 0) rate ≡ false → pos 0 ≡ rate
rate_zero rate h free = ground arith

levy_tds-Ends :
    {c : Currency} (rate : ℤ) (reason : TdsReason) (price : Money)
    → IsRate rate
    → IsNatural c price
    → Ends IsForeseen
        (λ t. IsNatural c t.tds × IsLevy price rate t.tds × (t.bps ≡ rate) × (t.reason ≡ reason))
        (levy_tds rate reason price)
unfolding levy_tds
levy_tds-Ends rate reason price is_rate h = elim (Bool-cases (ltb_ℤ (pos 0) rate)) [
  | inl due ↦ rw due (
      bind-Ends (levy price rate) (levy-Ends price rate h is_rate)
        λ t (natural, exact). returns _ (natural, exact, refl, refl))
  | inr free ↦ rw free (
      returns _ (
        zero-IsNatural price h,
        zero-IsLevy price rate is_rate free,
        rate_zero rate is_rate free,
        refl,
      ))
]

pub deduct_tds-Ends :
    {c : Currency} (p : Policy) (s : Seller) (price : Money)
    → IsValidPolicy p
    → IsNatural c price
    → Ends IsForeseen (λ t. IsNatural c t.tds × IsTds p s price t) (deduct_tds p s price)
unfolding deduct_tds
deduct_tds-Ends p s price v h =
    let (rate, reason) = tds_rate p s price in
    refuse-Ends (reason_panics reason price) _ (λ _. levy_tds rate reason price) tt
      λ fine.
        weaken-Ends (λ t (natural, exact, at_rate, why). (natural, (exact, at_rate, why)))
          (levy_tds-Ends rate reason price (tds_rate-IsRate p s price v) h)

-- a + t = l and l = n - d.
regroup : (a t l n d : ℤ) → a +ℤ t ≡ l → l ≡ n -ℤ d → a +ℤ (d +ℤ t) ≡ n
regroup a t l n d e f = omega (int_laws, ap pos_part e, ap neg_part e, ap pos_part f, ap neg_part f)

-- The subtractions of section 7, on a payment and natural amounts.
pub deduct-Ends :
    {c : Currency} (net : Money) (ds : List Money)
    → IsAmount c net
    → AreNatural c ds
    → Ends IsForeseen (λ r. IsAmount c r × (r.minor +ℤ total ds ≡ net.minor)) (deduct net ds)
unfolding deduct
deduct-Ends net [] h t = returns _ (h, omega int_laws)
deduct-Ends net (d ∷ ds) h (hd, t) =
    bind-Ends (wrap of_money (sub net d)) (sub-Ends net d h hd) λ left (amount, value).
      weaken-Ends
        (λ r (fit, rest). (fit, regroup r.minor (total ds) left.minor net.minor d.minor rest value))
        (deduct-Ends left ds amount t)
