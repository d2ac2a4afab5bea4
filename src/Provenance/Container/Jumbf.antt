-- ===== src/Provenance/Container/Jumbf.antt =====
-- `unwrapJUMBF` of internal/modules/provenance/c2pa.go.
use market_place.Prelude.{
  ℕ, zero, suc, ◌+◌, ◌-◌, ◌/◌, ◌≡◌, ◌||◌, if◌then◌else◌, ltb, ◌==◌, Option, none, some, [], ◌∷◌,
  length, refl, arith,
}
use market_place.Bytes.{Bytes, sub, equal, big_endian}
use market_place.Provenance.Container.Scan.{Step, stop, next, found, search, GoesUp, search_total}

-- The names of the boxes, in ASCII.
abbrev pub jumb : Bytes
jumb = 106 ∷ 117 ∷ 109 ∷ 98 ∷ []

abbrev pub cbor : Bytes
cbor = 99 ∷ 98 ∷ 111 ∷ 114 ∷ []

-- The length in a box's header, where 0 is for a box to the end.
unfoldable pub box_size : Bytes → (i : ℕ) → ℕ
box_size b i = if big_endian (sub i 4 b) == 0 then length b - i else big_endian (sub i 4 b)

-- What a box that is itself a tree of boxes gives: its content, or else the walk goes on behind it.
abbrev pub or_next : (inner : Option Bytes) → (behind : ℕ) → Step Bytes
or_next none behind = next behind
or_next (some content) behind = found content

-- One round of the loop over the boxes of `b`; `walk` goes down into a box.
unfoldable pub jumbf_step : (walk : Bytes → Option Bytes) → Bytes → ℕ → Step Bytes
jumbf_step walk b i =
    if ltb (length b) (i + 8)
    then stop
    else let size = box_size b i in
      if ltb size 8 || ltb (length b) (i + size)
      then stop
      else let content = sub (i + 8) (size - 8) b in
        if equal (sub (i + 4) 4 b) cbor
        then found content
        else if equal (sub (i + 4) 4 b) jumb
        then or_next (walk content) (i + size)
        else next (i + size)

abbrev pub settled : Option (Option Bytes) → Option Bytes
settled none = none
settled (some r) = r

-- The walk with so many levels left.
unfoldable pub walk_jumbf : (levels : ℕ) → Bytes → Option Bytes
walk_jumbf zero b = none
walk_jumbf (suc k) b = settled (search (jumbf_step (walk_jumbf k) b) (suc (length b)) 0)

-- Bare CBOR, a map by its first byte, needs no box.
abbrev pub bare_map : Bytes → Option Bytes
bare_map [] = none
bare_map (h ∷ t) = if h / 32 == 5 then some (h ∷ t) else none

abbrev pub or_bare : Option Bytes → Bytes → Option Bytes
or_bare none b = bare_map b
or_bare (some content) b = some content

-- `unwrapJUMBF`
unfoldable pub unwrap_jumbf : Bytes → Option Bytes
unwrap_jumbf b = or_bare (walk_jumbf 17 b) b

or_next-above : (inner : Option Bytes) (behind j : ℕ) → or_next inner behind ≡ next j → behind ≡ j
or_next-above none behind j e = ground arith
or_next-above (some content) behind j e = absurd (cc)

jumbf_step-GoesUp :
    (walk : Bytes → Option Bytes) (b : Bytes) → GoesUp (jumbf_step walk b) (length b)
unfolding GoesUp jumbf_step
jumbf_step-GoesUp walk b i j in_bounds e =
    ground (arith, or_next-above (walk (sub (i + 8) (box_size b i - 8) b)) (i + box_size b i) j)

-- The rounds of the walk suffice, on whatever boxes and at whatever level.
pub walk_jumbf-ends :
    (levels : ℕ) (b : Bytes)
    → (r : Option Bytes) × (walk_jumbf (suc levels) b ≡ r)
      × (search (jumbf_step (walk_jumbf levels) b) (suc (length b)) 0 ≡ some r)
unfolding walk_jumbf
walk_jumbf-ends levels b =
    let (r, done, _) =
      search_total (λ _. Unit) (jumbf_step (walk_jumbf levels) b) (length b) (suc (length b)) 0
        (jumbf_step-GoesUp (walk_jumbf levels) b) (λ i a le e. tt) (omega arith) (omega arith) in
    (r, rw done refl, done)
