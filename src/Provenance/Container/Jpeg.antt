-- ===== src/Provenance/Container/Jpeg.antt =====
-- `findJPEGManifest` of internal/modules/provenance/c2pa.go.
use market_place.Prelude.{
  ℕ, zero, suc, ◌+◌, ◌-◌, ◌<◌, ◌≤◌, ◌≡◌, refl, ◌||◌, ◌&&◌, if◌then◌else◌, ltb, leb, ◌==◌, if_elim,
  not, Option, none, some, List, [], ◌∷◌, ◌++◌, length, All, All-append, true, take, drop, arith,
}
use market_place.Bytes.{Bytes, sub, byte_at, equal, big_endian}
use market_place.Provenance.Ranges.{ByteRange, AreApart, AreApart-mono, AreApart-append}
use market_place.Provenance.Container.Jumbf.{unwrap_jumbf}

-- What stands at an index: the end of the segments, something to pass over, or a segment of the
-- manifest, so many bytes behind its marker, with its payload.
pub data Segment : Type 0 where
  last : Segment
  pass : ℕ → Segment
  packet : ℕ → Bytes → Segment

-- A segment with its marker, from the length in its header on.
unfoldable pub segment : Bytes → (i marker : ℕ) → Segment
segment asset i marker =
    let n = big_endian (sub (i + 2) 2 asset) in
    if ltb n 2 || ltb (length asset) (i + 2 + n)
    then last
    else let body = sub (i + 4) (n - 2) asset in
      if (marker == 0xEB) && (ltb 8 (length body) && equal (take 2 body) (74 ∷ 80 ∷ []))
      then packet n (drop 8 body)
      else pass (2 + n)

-- One round of the loop.
unfoldable pub jpeg_step : Bytes → (i : ℕ) → Segment
jpeg_step asset i =
    if ltb (length asset) (i + 4)
    then last
    else if not (byte_at asset i == 0xFF)
    then pass 1
    else let marker = byte_at asset (i + 1) in
      if (marker == 0xD8) || (leb 0xD0 marker && leb marker 0xD9)
      then pass 2
      else if marker == 0xDA
      then last
      else segment asset i marker

-- What the loop has written to `store` and appended to `ranges`.
abbrev pub Found : Type 0
Found = Bytes × List ByteRange

-- The loop from index i, for at most so many rounds; `none` when they do not suffice.
unfoldable pub scan_jpeg : (rounds : ℕ) → Bytes → (i : ℕ) → Found → Option Found
scan_jpeg zero asset i found = none
scan_jpeg (suc k) asset i (store, ranges) = elim (jpeg_step asset i) [
  | last ↦ some (store, ranges)
  | pass n ↦ scan_jpeg k asset (i + n) (store, ranges)
  | packet n payload ↦
      scan_jpeg k asset (i + (2 + n))
        (store ++ payload, ranges ++ (record { start = i; len = 2 + n } ∷ []))
]

abbrev stored : Found → Option Bytes × List ByteRange
stored ([], ranges) = (none, [])
stored (b ∷ bs, ranges) = (unwrap_jumbf (b ∷ bs), ranges)

-- `findJPEGManifest`, with its result when the rounds suffice.
unfoldable pub find_jpeg_manifest : Bytes → Option (Option Bytes × List ByteRange)
find_jpeg_manifest asset = elim (scan_jpeg (suc (length asset)) asset 2 ([], [])) [
  | none ↦ none
  | some found ↦ some (stored found)
]

-- A range is a whole APP11 segment in the JPEG's own terms: its marker, and the length in its header.
abbrev pub IsSegment : Bytes → ByteRange → Type 0
IsSegment asset r =
    ((byte_at asset (r.start) == 0xFF) ≡ true)
    × ((byte_at asset (r.start + 1) == 0xEB) ≡ true)
    × (r.len ≡ 2 + big_endian (sub (r.start + 2) 2 asset))

-- A step ends within the asset, behind where it began, and a segment of the manifest is a whole one.
unfoldable Within : Bytes → ℕ → Segment → Type 0
Within asset i last = Unit
Within asset i (pass n) = (0 < n) × (i + n ≤ length asset)
Within asset i (packet n payload) =
    (i + (2 + n) ≤ length asset) × IsSegment asset (record { start = i; len = 2 + n })

segment-Within :
    (asset : Bytes) (i : ℕ)
    → (byte_at asset i == 0xFF) ≡ true
    → Within asset i (segment asset i (byte_at asset (i + 1)))
unfolding segment Within
segment-Within asset i ff = ground (arith, ff)

jpeg_step-Within : (asset : Bytes) (i : ℕ) → Within asset i (jpeg_step asset i)
unfolding jpeg_step
jpeg_step-Within asset i =
    if_elim (Within asset i) (ltb (length asset) (i + 4)) (λ _. unfold Within in tt)
      λ more.
        if_elim (Within asset i) (not (byte_at asset i == 0xFF))
          (λ _. unfold Within in ground arith)
          λ ff.
            let marker = byte_at asset (i + 1) in
            if_elim (Within asset i) ((marker == 0xD8) || (leb 0xD0 marker && leb marker 0xD9))
              (λ _. unfold Within in ground arith)
              λ _.
                if_elim (Within asset i) (marker == 0xDA) (λ _. unfold Within in tt)
                  λ _. segment-Within asset i (ground (arith, ff))

-- The ranges found so far come one after the other, before the index; the rounds suffice.
scan_jpeg_lem :
    (k : ℕ) (asset : Bytes) (i : ℕ) (store : Bytes) (ranges : List ByteRange)
    → AreApart 0 ranges i
    → All (IsSegment asset) ranges
    → i ≤ length asset
    → length asset < k + i
    → (f : Found) × (scan_jpeg k asset i (store, ranges) ≡ some f)
      × AreApart 0 (f.1) (length asset)
      × All (IsSegment asset) (f.1)
unfolding scan_jpeg Within
scan_jpeg_lem zero asset i store ranges h whole le enough = absurd (omega arith)
scan_jpeg_lem (suc k) asset i store ranges h whole le enough =
    elim (jpeg_step asset i)
        as (λ s.
          Within asset i s
          → (f : Found) × (elim s [
            | last ↦ some (store, ranges)
            | pass n ↦ scan_jpeg k asset (i + n) (store, ranges)
            | packet n payload ↦
                scan_jpeg k asset (i + (2 + n))
                  (store ++ payload, ranges ++ (record { start = i; len = 2 + n } ∷ []))
          ]
              ≡ some f)
            × AreApart 0 (f.1) (length asset)
            × All (IsSegment asset) (f.1)) [
              | last ↦
                  λ _. ((store, ranges), refl, AreApart-mono 0 i (length asset) ranges h le, whole)
              | pass n ↦ λ (up, within).
                  scan_jpeg_lem k asset (i + n) store ranges
                    (AreApart-mono 0 i (i + n) ranges h (omega arith)) whole within (omega arith)
              | packet n payload ↦ λ (within, piece).
                  let r : ByteRange = record { start = i; len = 2 + n } in
                  scan_jpeg_lem k asset (i + (2 + n)) (store ++ payload) (ranges ++ (r ∷ []))
                    (AreApart-append 0 i ranges r h (omega arith))
                    (All-append (IsSegment asset) ranges (r ∷ []) whole (piece, tt)) within
                    (omega arith)
            ]
      (jpeg_step-Within asset i)

stored_lem :
    (asset all : Bytes) (ranges : List ByteRange)
    → AreApart 0 ranges (length asset)
    → All (IsSegment asset) ranges
    → (store : Option Bytes) × (rs : List ByteRange) × (some (stored (all, ranges))
        ≡ some (store, rs))
      × AreApart 0 rs (length asset)
      × All (IsSegment asset) rs
stored_lem asset [] ranges h whole = (none, [], refl, unfold AreApart in omega arith, tt)
stored_lem asset (b ∷ bs) ranges h whole = (unwrap_jumbf (b ∷ bs), ranges, refl, h, whole)

-- `findJPEGManifest` comes to an end on an asset of two bytes and more, and the ranges that it
-- gives come one after the other, end within the asset and are whole segments.
pub find_jpeg_manifest_lem :
    (asset : Bytes)
    → 2 ≤ length asset
    → (store : Option Bytes) × (rs : List ByteRange) × (find_jpeg_manifest asset ≡ some (store, rs))
      × AreApart 0 rs (length asset)
      × All (IsSegment asset) rs
unfolding find_jpeg_manifest
find_jpeg_manifest_lem asset two =
    let ((all, ranges), done, apart, whole) =
      scan_jpeg_lem (suc (length asset)) asset 2 [] [] (unfold AreApart in omega arith) tt two
        (omega arith) in
    rw (find_jpeg_manifest, done) (stored_lem asset all ranges apart whole)
