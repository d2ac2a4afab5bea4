-- ===== src/Provenance/Container/Store.antt =====
-- `findManifestStore`, with `findPNGManifest` and `findBMFFManifest`, of
-- internal/modules/provenance/c2pa.go.
use market_place.Prelude.{
  ℕ, suc, ◌+◌, ◌-◌, ◌≤◌, ◌≡◌, refl, ◌||◌, ◌&&◌, if◌then◌else◌, ltb, leb, if_elim, Option, none,
  some, List, [], ◌∷◌, length, All, true, both_true, Result, ok, err, Ends, returns, fails, arith,
}
use market_place.Bytes.{Bytes, sub, equal, has_prefix, has_prefix-length, big_endian}
use market_place.Provenance.Ranges.{ByteRange, AreApart}
use market_place.Provenance.Container.Scan.{Step, stop, next, found, search, GoesUp, search_total}
use market_place.Provenance.Container.Jumbf.{
  unwrap_jumbf, box_size, walk_jumbf, jumbf_step, walk_jumbf-ends,
}
use market_place.Provenance.Container.Jpeg.{IsSegment, find_jpeg_manifest, find_jpeg_manifest_lem}

-- A manifest store, if there is one, and what it takes up of the asset.
abbrev pub Store : Type 0
Store = Option Bytes × List ByteRange

-- A walk that needs more rounds, and a slice whose bounds are out of order, which panics.
pub data Fault : Type 0 where
  out_of_rounds slice_bounds : Fault

abbrev pub one_range : Bytes → (start len : ℕ) → Store
one_range content start len = (unwrap_jumbf content, (record { start = start; len = len } ∷ []))

-- One round of the loop over the chunks of a PNG: `caBX` and `IEND` in ASCII.
unfoldable pub png_step : Bytes → ℕ → Step (Result Fault Store)
png_step asset i =
    let n = big_endian (sub i 4 asset) in
    let chunk_type = sub (i + 4) 4 asset in
    if ltb (length asset) (i + 12)
    then stop
    else if ltb (length asset) (i + 12 + n)
    then stop
    else if equal chunk_type (99 ∷ 97 ∷ 66 ∷ 88 ∷ [])
    then found (ok (one_range (sub (i + 8) n asset) i (12 + n)))
    else if equal chunk_type (73 ∷ 69 ∷ 78 ∷ 68 ∷ [])
    then stop
    else next (i + 12 + n)

abbrev pub c2pa_uuid : Bytes
c2pa_uuid =
    0xD8 ∷ 0xFE ∷ 0xC3 ∷ 0xD6 ∷ 0x1B ∷ 0x0E ∷ 0x48 ∷ 0x3C ∷ 0x92 ∷ 0x97 ∷ 0x58 ∷ 0x28 ∷ 0x87 ∷ 0x7E
    ∷ 0xC4 ∷ 0x81 ∷ []

-- `asset[lo:hi]` in a manifest's box, which begins at i: a slice that ends before it begins panics.
unfoldable pub uuid_box : Bytes → (i size : ℕ) → Result Fault Store
uuid_box asset i size =
    if ltb size 24 then err slice_bounds else ok (one_range (sub (i + 24) (size - 24) asset) i size)

-- One round of the loop over the top-level boxes: `uuid` in ASCII.
unfoldable pub bmff_step : Bytes → ℕ → Step (Result Fault Store)
bmff_step asset i =
    let size = box_size asset i in
    if ltb (length asset) (i + 8)
    then stop
    else if ltb size 8 || ltb (length asset) (i + size)
    then stop
    else if equal (sub (i + 4) 4 asset) (117 ∷ 117 ∷ 105 ∷ 100 ∷ [])
        && (leb (i + 24) (length asset) && equal (sub (i + 8) 16 asset) c2pa_uuid)
    then found (uuid_box asset i size)
    else next (i + size)

abbrev pub nothing : Result Fault Store
nothing = ok (none, [])

abbrev pub searched : Option (Option (Result Fault Store)) → Result Fault Store
searched none = err out_of_rounds
searched (some none) = nothing
searched (some (some r)) = r

-- `findPNGManifest`
unfoldable pub find_png_manifest : Bytes → Result Fault Store
find_png_manifest asset = searched (search (png_step asset) (suc (length asset)) 8)

-- `findBMFFManifest`
unfoldable pub find_bmff_manifest : Bytes → Result Fault Store
find_bmff_manifest asset = searched (search (bmff_step asset) (suc (length asset)) 0)

abbrev within_rounds : Option Store → Result Fault Store
within_rounds none = err out_of_rounds
within_rounds (some store) = ok store

-- What a JPEG, a PNG and, behind four bytes, a BMFF begin with.
abbrev jpeg : Bytes
jpeg = 0xFF ∷ 0xD8 ∷ 0xFF ∷ []

abbrev png : Bytes
png = 0x89 ∷ 80 ∷ 78 ∷ 71 ∷ 0x0D ∷ 0x0A ∷ 0x1A ∷ 0x0A ∷ []

abbrev ftyp : Bytes
ftyp = 102 ∷ 116 ∷ 121 ∷ 112 ∷ []

-- `findManifestStore`: the first bytes tell the container.
unfoldable pub find_manifest_store : Bytes → Result Fault Store
find_manifest_store asset =
    if has_prefix asset jpeg
    then within_rounds (find_jpeg_manifest asset)
    else if has_prefix asset png
    then find_png_manifest asset
    else if ltb 12 (length asset) && equal (sub 4 4 asset) ftyp
    then find_bmff_manifest asset
    else nothing

-- A range that takes up one whole piece of its container: a segment of a JPEG, the length, type, data and checksum
-- of a `caBX` chunk of a PNG, or a C2PA box of a BMFF, to the length in its header.
pub data IsPiece (asset : Bytes) (r : ByteRange) : Type 0 where
  of_jpeg : has_prefix asset jpeg ≡ true → IsSegment asset r → IsPiece asset r
  of_png :
      has_prefix asset png ≡ true
      → equal (sub (r.start + 4) 4 asset) (99 ∷ 97 ∷ 66 ∷ 88 ∷ []) ≡ true
      → r.len ≡ 12 + big_endian (sub (r.start) 4 asset)
      → IsPiece asset r
  of_bmff :
      equal (sub 4 4 asset) ftyp ≡ true
      → equal (sub (r.start + 4) 4 asset) (117 ∷ 117 ∷ 105 ∷ 100 ∷ []) ≡ true
      → equal (sub (r.start + 8) 16 asset) c2pa_uuid ≡ true
      → r.len ≡ box_size asset (r.start)
      → IsPiece asset r

-- A search of a container: no fault but the slice's, and ranges in order within the asset, each of
-- which is a whole piece.
abbrev pub IsLocated : Bytes → Result Fault Store → Type 0
IsLocated asset =
    Ends (λ e. e ≡ slice_bounds)
      (λ store. AreApart 0 (store.1) (length asset) × All (IsPiece asset) (store.1))

png_step-GoesUp : (asset : Bytes) → GoesUp (png_step asset) (length asset)
unfolding GoesUp png_step
png_step-GoesUp asset i j in_bounds e = ground arith

bmff_step-GoesUp : (asset : Bytes) → GoesUp (bmff_step asset) (length asset)
unfolding GoesUp bmff_step
bmff_step-GoesUp asset i j in_bounds e = ground arith

one_range-IsLocated :
    (asset content : Bytes) (start len : ℕ)
    → start + len ≤ length asset
    → IsPiece asset (record { start = start; len = len })
    → IsLocated asset (ok (one_range content start len))
unfolding AreApart
one_range-IsLocated asset content start len fits piece =
    returns _ ((omega arith, fits), (piece, tt))

uuid_box-IsLocated :
    (asset : Bytes) (i size : ℕ)
    → i + size ≤ length asset
    → IsPiece asset (record { start = i; len = size })
    → IsLocated asset (uuid_box asset i size)
unfolding uuid_box
uuid_box-IsLocated asset i size fits piece =
    if_elim (IsLocated asset) (ltb size 24) (λ _. fails _ refl)
      λ _. one_range-IsLocated asset (sub (i + 24) (size - 24) asset) i size fits piece

nothing-IsLocated : (asset : Bytes) → IsLocated asset nothing
unfolding AreApart
nothing-IsLocated asset = returns (none, []) (omega arith, tt)

-- The search for a box or a chunk ends well when each round does.
search-IsLocated :
    (asset : Bytes) (step : ℕ → Step (Result Fault Store)) (i : ℕ)
    → GoesUp step (length asset)
    → ((j : ℕ) (r : Result Fault Store) → step j ≡ found r → IsLocated asset r)
    → i ≤ length asset
    → IsLocated asset (searched (search step (suc (length asset)) i))
search-IsLocated asset step i up each in_bounds =
    let (r, done, holds) =
      search_total (IsLocated asset) step (length asset) (suc (length asset)) i up
        (λ j r _ e. each j r e) in_bounds (omega arith) in
    rw (done) (
      elim r
          as (λ r.
            ((s : Result Fault Store) → r ≡ some s → IsLocated asset s)
            → IsLocated asset (searched (some r))) [
              | none ↦ λ _. nothing-IsLocated asset
              | some s ↦ λ h. h s refl
            ]
        holds)

png_step-IsLocated :
    (asset : Bytes) (i : ℕ) (r : Result Fault Store)
    → has_prefix asset png ≡ true
    → png_step asset i ≡ found r
    → IsLocated asset r
unfolding png_step
png_step-IsLocated asset i r begins e =
    let n = big_endian (sub i 4 asset) in
    let piece : equal (sub (i + 4) 4 asset) (99 ∷ 97 ∷ 66 ∷ 88 ∷ []) ≡ true
        → IsPiece asset (record { start = i; len = 12 + n }) =
      λ t. of_png begins t refl in
    let fits = one_range-IsLocated asset (sub (i + 8) n asset) i (12 + n) in
    ground (arith, fits, piece)

bmff_step-IsLocated :
    (asset : Bytes) (i : ℕ) (r : Result Fault Store)
    → equal (sub 4 4 asset) ftyp ≡ true
    → bmff_step asset i ≡ found r
    → IsLocated asset r
unfolding bmff_step
bmff_step-IsLocated asset i r begins e =
    let piece : equal (sub (i + 4) 4 asset) (117 ∷ 117 ∷ 105 ∷ 100 ∷ []) ≡ true
        → equal (sub (i + 8) 16 asset) c2pa_uuid ≡ true
        → IsPiece asset (record { start = i; len = box_size asset i }) =
      λ t u. of_bmff begins t u refl in
    ground (arith, uuid_box-IsLocated asset i (box_size asset i), piece)

All-of_jpeg :
    (asset : Bytes) (rs : List ByteRange)
    → has_prefix asset jpeg ≡ true
    → All (IsSegment asset) rs
    → All (IsPiece asset) rs
All-of_jpeg asset [] e whole = tt
All-of_jpeg asset (r ∷ rs) e (segment, whole) = (of_jpeg e segment, All-of_jpeg asset rs e whole)

-- `findManifestStore` comes to an end: its walk over a container does not run out of rounds, and nor does
-- `unwrapJUMBF`'s over any boxes, with any number of levels left. It fails only by the slice of a box whose size is too small, and else the ranges that it gives come one after the
-- other, end within the asset and each take up one whole piece of the container.
pub find_manifest_store-IsLocated :
    (asset : Bytes) (levels : ℕ) (box : Bytes)
    → IsLocated asset (find_manifest_store asset)
      × ((r : Option Bytes) × (walk_jumbf (suc levels) box ≡ r)
          × (search (jumbf_step (walk_jumbf levels) box) (suc (length box)) 0 ≡ some r))
unfolding find_manifest_store find_png_manifest find_bmff_manifest
find_manifest_store-IsLocated asset levels box = (
  if_elim (IsLocated asset) (has_prefix asset jpeg)
      (λ e.
        let (store, rs, done, apart, whole) =
          find_jpeg_manifest_lem asset (omega (arith, has_prefix-length asset jpeg e)) in
        rw (done) (returns (store, rs) (apart, All-of_jpeg asset rs e whole)))
      λ _.
        if_elim (IsLocated asset) (has_prefix asset png)
          (λ e.
            search-IsLocated asset (png_step asset) 8 (png_step-GoesUp asset)
              (λ i r. png_step-IsLocated asset i r e) (has_prefix-length asset png e))
          λ _.
            if_elim (IsLocated asset) (ltb 12 (length asset) && equal (sub 4 4 asset) ftyp)
              (λ e.
                search-IsLocated asset (bmff_step asset) 0 (bmff_step-GoesUp asset)
                  (λ i r. bmff_step-IsLocated asset i r (both_true _ _ e).1) (omega arith))
              λ _. nothing-IsLocated asset,
  walk_jumbf-ends levels box,
)
