-- ===== src/Provenance/Ranges.antt =====
-- The part of an asset that the hard binding is computed over: `byteRange` and `excludeRanges` of
-- internal/modules/provenance/c2pa.go.
use Prim.Native.Nat.{min}
use market_place.Prelude.{
  ℕ, zero, suc, ◌+◌, ◌-◌, ◌<◌, ◌≤◌, ◌≡◌, refl, sym, ap, ◌∙◌, Bool, true, false, ◌||◌, ◌&&◌,
  if◌then◌else◌, ltb, leb, List, [], ◌∷◌, ◌++◌, length, length-drop, take, drop, drop-drop, arith,
}
use market_place.Bytes.{Bytes, sub}

pub record ByteRange : Type 0 where
  pub start : ℕ
  pub len : ℕ

-- The loop of `excludeRanges` from the byte `prev` on.
unfoldable pub exclude_from : Bytes → (prev : ℕ) → List ByteRange → Bytes
exclude_from asset prev [] = drop prev asset
exclude_from asset prev (r ∷ rs) =
    if ltb (r.start) prev || ltb (length asset) (r.start)
    then exclude_from asset prev rs
    else sub prev (r.start - prev) asset
      ++ exclude_from asset (min (r.start + r.len) (length asset)) rs

-- `excludeRanges`
unfoldable pub exclude_ranges : Bytes → List ByteRange → Bytes
exclude_ranges asset [] = asset
exclude_ranges asset (r ∷ rs) = exclude_from asset 0 (r ∷ rs)

-- One range after the other, from a first byte and up to a last one.
unfoldable pub AreApart : (from : ℕ) → List ByteRange → (to : ℕ) → Type 0
AreApart from [] to = from ≤ to
AreApart from (r ∷ rs) to = (from ≤ r.start) × AreApart (r.start + r.len) rs to

-- Whether the byte at i lies in one of the ranges.
unfoldable pub lies_in : (i : ℕ) → List ByteRange → Bool
lies_in i [] = false
lies_in i (r ∷ rs) = (leb (r.start) i && ltb i (r.start + r.len)) || lies_in i rs

-- The bytes that lie in none of the ranges; the first one stands at i.
unfoldable pub outside : List ByteRange → (i : ℕ) → Bytes → Bytes
outside rs i [] = []
outside rs i (b ∷ bs) =
    let rest = outside rs (suc i) bs in if lies_in i rs then rest else (b ∷ rest)

outside-nil : (i : ℕ) (b : Bytes) → outside [] i b ≡ b
unfolding outside lies_in
outside-nil i [] = refl
outside-nil i (x ∷ b) = ap (λ t. x ∷ t) (outside-nil (suc i) b)

pub AreApart-le : (from to : ℕ) (rs : List ByteRange) → AreApart from rs to → from ≤ to
unfolding AreApart
AreApart-le from to [] h = h
AreApart-le from to (r ∷ rs) (h, hs) = omega (arith, AreApart-le (r.start + r.len) to rs hs)

-- More room at the end changes nothing.
pub AreApart-mono :
    (from to to' : ℕ) (rs : List ByteRange) → AreApart from rs to → to ≤ to' → AreApart from rs to'
unfolding AreApart
AreApart-mono from to to' [] h le = omega arith
AreApart-mono from to to' (r ∷ rs) (h, hs) le = (h, AreApart-mono (r.start + r.len) to to' rs hs le)

-- One more range behind the others.
pub AreApart-append :
    (from to : ℕ) (rs : List ByteRange) (r : ByteRange)
    → AreApart from rs to
    → to ≤ r.start
    → AreApart from (rs ++ (r ∷ [])) (r.start + r.len)
unfolding AreApart
AreApart-append from to [] r h le = (omega arith, omega arith)
AreApart-append from to (x ∷ rs) r (h, hs) le = (h, AreApart-append (x.start + x.len) to rs r hs le)

before-lies_in :
    (i from to : ℕ) (rs : List ByteRange) → AreApart from rs to → i < from → lies_in i rs ≡ false
unfolding AreApart lies_in
before-lies_in i from to [] h lt = refl
before-lies_in i from to (r ∷ rs) (h, hs) lt =
    ground (arith, before-lies_in i (r.start + r.len) to rs hs)

-- Bytes before all of the ranges are kept.
outside-before :
    (i n from to : ℕ) (rs : List ByteRange) (b : Bytes)
    → AreApart from rs to
    → i + n ≤ from
    → n ≤ length b
    → outside rs i b ≡ take n b ++ outside rs (i + n) (drop n b)
unfolding outside
outside-before i zero from to rs b h le fits = ap (λ j. outside rs j b) (omega arith)
outside-before i (suc n) from to rs [] h le fits = absurd (omega arith)
outside-before i (suc n) from to rs (x ∷ b) h le fits =
    let kept : lies_in i rs ≡ false = before-lies_in i from to rs h (omega arith) in
    let next : suc i + n ≡ i + suc n = omega arith in
    rw (kept) (
      ap (λ t. x ∷ t)
        (outside-before (suc i) n from to rs b h (omega arith) (omega arith)
          ∙ ap (λ j. take n b ++ outside rs j (drop n b)) next))

-- Bytes in the first range are left out.
outside-inside :
    (i n : ℕ) (r : ByteRange) (rs : List ByteRange) (b : Bytes)
    → r.start ≤ i
    → i + n ≤ r.start + r.len
    → n ≤ length b
    → outside (r ∷ rs) i b ≡ outside (r ∷ rs) (i + n) (drop n b)
unfolding outside
outside-inside i zero r rs b above le fits = ap (λ j. outside (r ∷ rs) j b) (omega arith)
outside-inside i (suc n) r rs [] above le fits = absurd (omega arith)
outside-inside i (suc n) r rs (x ∷ b) above le fits =
    let left_out : lies_in i (r ∷ rs) ≡ true = unfold lies_in in ground arith in
    let next : suc i + n ≡ i + suc n = omega arith in
    rw (left_out) (
      outside-inside (suc i) n r rs b (omega arith) (omega arith) (omega arith)
      ∙ ap (λ j. outside (r ∷ rs) j (drop n b)) next)

-- Behind the first range, only the others count.
outside-behind :
    (i : ℕ) (r : ByteRange) (rs : List ByteRange) (b : Bytes)
    → r.start + r.len ≤ i
    → outside (r ∷ rs) i b ≡ outside rs i b
unfolding outside
outside-behind i r rs [] le = refl
outside-behind i r rs (x ∷ b) le =
    let same : lies_in i (r ∷ rs) ≡ lies_in i rs = unfold lies_in in ground arith in
    rw (same, outside-behind (suc i) r rs b (omega arith)) refl

exclude_from_lem :
    (asset : Bytes) (prev : ℕ) (rs : List ByteRange)
    → AreApart prev rs (length asset)
    → exclude_from asset prev rs ≡ outside rs prev (drop prev asset)
unfolding exclude_from AreApart
exclude_from_lem asset prev [] h =
    let none_left : outside [] prev (drop prev asset) ≡ drop prev asset =
      outside-nil prev (drop prev asset) in
    sym none_left
exclude_from_lem asset prev (r ∷ rs) (from, hs) =
    let end = r.start + r.len in
    let in_bounds : end ≤ length asset = AreApart-le end (length asset) rs hs in
    let taken : (ltb (r.start) prev || ltb (length asset) (r.start)) ≡ false = ground arith in
    let capped : min end (length asset) ≡ end = omega arith in
    let gap = r.start - prev in
    let up : prev + gap ≡ r.start = omega arith in
    let rest = drop prev asset in
    rw (taken, capped, exclude_from_lem asset end rs hs)
      (sym (
        outside-before prev gap (r.start) (length asset) (r ∷ rs) rest (omega arith, hs)
          (omega arith) (omega (arith, length-drop prev asset))
        ∙ ap (λ t. take gap rest ++ t)
            (ap (λ t. outside (r ∷ rs) (prev + gap) t) (drop-drop gap prev asset)
              ∙ (ap (λ j. outside (r ∷ rs) j (drop j asset)) up
                  ∙ (outside-inside (r.start) (r.len) r rs (drop (r.start) asset) (omega arith)
                        (omega arith) (omega (arith, length-drop (r.start) asset))
                      ∙ (outside-behind end r rs (drop (r.len) (drop (r.start) asset)) (omega arith)
                          ∙ ap (λ t. outside rs end t) (drop-drop (r.len) (r.start) asset)))))))

-- For ranges that come one after the other and end within the asset, what `excludeRanges` returns
-- is the bytes of the asset that lie in none of them, in their order.
pub exclude_ranges-outside :
    (asset : Bytes) (rs : List ByteRange)
    → AreApart 0 rs (length asset)
    → exclude_ranges asset rs ≡ outside rs 0 asset
unfolding exclude_ranges
exclude_ranges-outside asset [] h = sym (outside-nil 0 asset)
exclude_ranges-outside asset (r ∷ rs) h = exclude_from_lem asset 0 (r ∷ rs) h
