-- ===== src/Provenance/Assess.antt =====
-- `Assess` of internal/modules/provenance/provenance.go: the evidence in an asset against its seller's
-- declaration. The words of a reason are a constructor, with the text that goes into them.
use market_place.Prelude.{
  Bool, true, false, not, ◌&&◌, if◌then◌else◌, ltb, ℤ, pos, negsuc, ◌+ℤ◌, ltb_ℤ, leb_ℤ, nat_abs,
  List, [], ◌∷◌, ◌++◌, map,
}
use market_place.Bytes.{Bytes}

-- `Disclosure`; a string that is none of these is `undeclared`, since no function tells them apart.
pub data Disclosure : Type 0 where
  undeclared no_ai ai_assisted ai_generated ai_generated_edited : Disclosure

-- `Valid`
unfoldable pub is_declared : Disclosure → Bool
is_declared undeclared = false
is_declared _ = true

-- `DeclaresAI`
unfoldable pub declares_ai : Disclosure → Bool
declares_ai ai_assisted = true
declares_ai ai_generated = true
declares_ai ai_generated_edited = true
declares_ai _ = false

abbrev pub is_generated : Disclosure → Bool
is_generated ai_generated = true
is_generated _ = false

-- `Signals`, without the hashes and the generator, which `Assess` does not read.
pub record Signals : Type 0 where
  pub c2pa_present : Bool
  pub c2pa_intact : Bool
  pub c2pa_binding_valid : Bool
  pub c2pa_issuer : Bytes
  pub generator_hint : Bytes
  pub generator_hint_indicates_ai : Bool
  pub has_source_project : Bool
  pub source_project_kinds : List Bytes
  pub remarks : List Bytes

pub data Reason : Type 0 where
  credentials_bound : (issuer : Bytes) → Reason
  credentials_intact credentials_broken : Reason
  editable_source : List Bytes → Reason
  tool_agrees tool_conflicts conventional_tool : Bytes → Reason
  understated no_signals : Reason
  remark : Bytes → Reason
  not_disclosed : Reason

-- A reason and how much it moves the score.
abbrev pub Weighted : Type 0
Weighted = ℤ × Reason

pub data Routing : Type 0 where
  publish review priority_review : Routing

-- `Assessment`
pub record Assessment : Type 0 where
  pub total_score : ℤ
  pub routing : Routing
  pub reasons : List Reason
  pub conflicts : List Reason

abbrev pub when : Bool → Weighted → List Weighted
when true w = w ∷ []
when false w = []

-- The credentials.
unfoldable pub credentials : (present intact bound : Bool) → (issuer : Bytes) → List Weighted
credentials present intact bound issuer =
    if present && (intact && bound)
    then (pos 25, credentials_bound issuer) ∷ []
    else if present && intact
    then (pos 10, credentials_intact) ∷ []
    else if present
    then (negsuc 4, credentials_broken) ∷ []
    else []

abbrev pub is_blank : Bytes → Bool
is_blank [] = true
is_blank (b ∷ bs) = false

-- The tool in the metadata, against the declaration.
unfoldable pub tool : (indicates_ai declared : Bool) → (hint : Bytes) → List Weighted
tool indicates_ai declared hint =
    if indicates_ai
    then if declared then (pos 10, tool_agrees hint) ∷ [] else (negsuc 29, tool_conflicts hint) ∷ []
    else when (not (is_blank hint)) (pos 5, conventional_tool hint)

-- The conflicts between the declaration and the evidence.
unfoldable pub conflicts_of : Disclosure → Signals → List Reason
conflicts_of d s =
    if s.generator_hint_indicates_ai && not (declares_ai d)
    then (tool_conflicts (s.generator_hint) ∷ [])
    else []

-- All that is weighed, in the order of the source.
unfoldable pub evidence : Disclosure → Signals → List Weighted
evidence d s =
    credentials (s.c2pa_present) (s.c2pa_intact) (s.c2pa_binding_valid) (s.c2pa_issuer)
    ++ (when (s.has_source_project) (pos 20, editable_source (s.source_project_kinds))
        ++ (tool (s.generator_hint_indicates_ai) (declares_ai d) (s.generator_hint)
            ++ (when (declares_ai d && (s.has_source_project && is_generated d))
                  (pos 5, understated)
                ++ (when
                      (not (s.c2pa_present)
                        && (is_blank (s.generator_hint) && not (s.has_source_project)))
                      (pos 0, no_signals)
                    ++ map (λ n. (pos 0, remark n)) (s.remarks)))))

unfoldable pub moved : List Weighted → ℤ
moved [] = pos 0
moved (w ∷ ws) = w.0 +ℤ moved ws

-- `clamp`
unfoldable pub clamp : (v lo hi : ℤ) → ℤ
clamp v lo hi = if ltb_ℤ v lo then lo else if ltb_ℤ hi v then hi else v

-- One step of the stable sort by how much a reason moves the score, the most first.
unfoldable pub place : Weighted → List Weighted → List Weighted
place w [] = w ∷ []
place w (v ∷ vs) =
    let rest = place w vs in
    if ltb (nat_abs (w.0)) (nat_abs (v.0)) then (v ∷ rest) else (w ∷ (v ∷ vs))

unfoldable pub by_weight : List Weighted → List Weighted
by_weight [] = []
by_weight (w ∷ ws) = place w (by_weight ws)

abbrev pub none_of : List Reason → Bool
none_of [] = true
none_of (r ∷ rs) = false

-- `Assess`
unfoldable pub assess : Disclosure → Signals → Assessment
assess d s =
    let score = clamp (pos 50 +ℤ moved (evidence d s)) (pos 0) (pos 100) in
    let why = map (λ w. w.1) (by_weight (evidence d s)) in
    let conflicting = conflicts_of d s in
    if not (none_of conflicting)
    then record {
      total_score = score;
      routing = priority_review;
      reasons = why;
      conflicts = conflicting;
    }
    else if not (is_declared d)
    then record {
      total_score = score;
      routing = review;
      reasons = why ++ (not_disclosed ∷ []);
      conflicts = conflicting;
    }
    else if leb_ℤ (pos 70) score
    then record { total_score = score; routing = publish; reasons = why; conflicts = conflicting }
    else record { total_score = score; routing = review; reasons = why; conflicts = conflicting }
