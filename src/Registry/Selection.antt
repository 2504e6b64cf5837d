-- ===== src/Registry/Selection.antt =====
-- The resolution of a requested model (packages/model-registry/src/model-selection.ts).
use gana_v.Prelude.{
  ◌||◌, String, Bool, Option, none, some, List, [], ◌∷◌, if◌then◌else◌, ltb, first, head, or_else,
  get_or,
}
use gana_v.Prelude.Texts.{str_eq, join}
use gana_v.Prelude.Sort.{sort}
use gana_v.Registry.Models.{
  ReasoningLevel, AvailabilitySource, upstream, ModelOption, reasoning_levels, level_name,
  same_optional, supports, get_reasoning_rank,
}
use gana_v.Registry.Catalog.{levels_or}
use Prim.Native.String.{◌++◌ as concat}
use text.Mathlib.Text.{starts_with}

pub data ResolutionKind : Type 0 where
  exact_match exact_model_reasoning_adjusted family_variant cross_model_fallback : ResolutionKind

-- `ModelSelectionResolution`; its provider is always "codex". The outer `Option` of the fallback
-- reason is a missing property, the inner one `null`.
pub record Resolution : Type 0 where
  pub requested_model : Option String
  pub requested_reasoning : Option ReasoningLevel
  pub resolved_model : String
  pub resolved_reasoning : Option ReasoningLevel
  pub fallback_reason : Option (Option String)
  pub resolution_kind : ResolutionKind
  pub resolved_model_source : Option AvailabilitySource

pub record ModelSummary : Type 0 where
  pub id : String
  pub label : String
  pub default_reasoning_level : Option ReasoningLevel
  pub supported_reasoning_levels : List ReasoningLevel
  pub supports_web_search : Bool
  pub availability_source : AvailabilitySource

abbrev pub to_codex_model_summary : ModelOption → ModelSummary
to_codex_model_summary model = record {
  id = model.id;
  label = model.label;
  default_reasoning_level = model.default_reasoning;
  supported_reasoning_levels = levels_or model.supported_reasoning_levels reasoning_levels;
  supports_web_search = model.supports_web_search;
  availability_source = get_or model.availability_source upstream;
}

unfoldable pub get_highest_reasoning_level : List ReasoningLevel → Option ReasoningLevel
unfolding sort
get_highest_reasoning_level levels =
    head (sort (λ left right. ltb (get_reasoning_rank right) (get_reasoning_rank left)) levels)

-- A level where it is there and among the levels.
abbrev pub if_supported : List ReasoningLevel → Option ReasoningLevel → Option ReasoningLevel
if_supported levels none = none
if_supported levels (some level) = if supports levels level then some level else none

unfoldable pub choose_best_reasoning : ModelSummary → Option ReasoningLevel → Option ReasoningLevel
unfolding get_highest_reasoning_level
choose_best_reasoning model preferred =
    or_else (if_supported model.supported_reasoning_levels preferred) (
      or_else (if_supported model.supported_reasoning_levels model.default_reasoning_level)
        (get_highest_reasoning_level model.supported_reasoning_levels))

abbrev pub matches_requested_model : String → String → Bool
matches_requested_model model_id requested =
    str_eq model_id requested || starts_with model_id (concat requested "-")

abbrev exact_kind : Resolution → ResolutionKind
exact_kind s =
    if same_optional s.resolved_reasoning s.requested_reasoning
    then exact_match
    else exact_model_reasoning_adjusted

-- The kind where a model was requested.
abbrev pub kind_for : String → Resolution → ResolutionKind
kind_for requested s =
    if str_eq requested "" || str_eq s.resolved_model requested
    then exact_kind s
    else if starts_with s.resolved_model (concat requested "-")
    then family_variant
    else cross_model_fallback

unfoldable pub infer_resolution_kind : Resolution → ResolutionKind
infer_resolution_kind s = elim s.requested_model [
  | none ↦ exact_kind s
  | some requested ↦ kind_for requested s
]

-- The members that the three answers share. `compactSelection` drops a missing property, and keeps
-- every other one, since no level is an empty text.
abbrev pub resolution :
    String → Option ReasoningLevel → ModelSummary → Option String → ResolutionKind → Resolution
resolution requested reasoning model reason kind = record {
  requested_model = some requested;
  requested_reasoning = reasoning;
  resolved_model = model.id;
  resolved_reasoning = choose_best_reasoning model reasoning;
  fallback_reason = some reason;
  resolution_kind = kind;
  resolved_model_source = some model.availability_source;
}

abbrev pub adjusted_name : Option ReasoningLevel → String
adjusted_name none = "none"
adjusted_name (some level) = level_name level

abbrev pub exact_reason : ModelSummary → Option ReasoningLevel → Option String
exact_reason model none = none
exact_reason model (some requested) =
    if same_optional (choose_best_reasoning model (some requested)) (some requested)
    then none
    else some (
        join (
          model.id
          ∷ " does not support "
          ∷ level_name requested
          ∷ "; using "
          ∷ adjusted_name (choose_best_reasoning model (some requested))
          ∷ "."
          ∷ []))

abbrev pub exact_resolution : String → Option ReasoningLevel → ModelSummary → Resolution
exact_resolution requested reasoning model =
    resolution requested reasoning model (exact_reason model reasoning) (
      if same_optional (choose_best_reasoning model reasoning) reasoning
      then exact_match
      else exact_model_reasoning_adjusted)

abbrev pub variant_resolution : String → Option ReasoningLevel → ModelSummary → Resolution
variant_resolution requested reasoning model =
    resolution requested reasoning model
      (some
        (join (requested ∷ " is unavailable; using " ∷ model.id ∷ " within the same family." ∷ [])))
      family_variant

abbrev pub fallback_resolution : String → Option ReasoningLevel → ModelSummary → Resolution
fallback_resolution requested reasoning model =
    resolution requested reasoning model
      (some (join (requested ∷ " is unavailable; using " ∷ model.id ∷ " as fallback." ∷ [])))
      cross_model_fallback

-- `crossModelCandidate`
abbrev pub cross_candidate : Option ReasoningLevel → List ModelSummary → Option ModelSummary
cross_candidate none models = head models
cross_candidate (some level) models =
    or_else (first (λ m. supports m.supported_reasoning_levels level) models) (head models)

abbrev pub cross_model : String → Option ReasoningLevel → Option ModelSummary → Option Resolution
cross_model requested reasoning none = none
cross_model requested reasoning (some m) = some (fallback_resolution requested reasoning m)

abbrev pub variant_or :
    String → Option ReasoningLevel → List ModelSummary → Option ModelSummary → Option Resolution
variant_or requested reasoning models none =
    cross_model requested reasoning (cross_candidate reasoning models)
variant_or requested reasoning models (some m) = some (variant_resolution requested reasoning m)

abbrev pub exact_or :
    String → Option ReasoningLevel → List ModelSummary → Option ModelSummary → Option Resolution
exact_or requested reasoning models none =
    variant_or requested reasoning models
      (first (λ m. matches_requested_model m.id requested) models)
exact_or requested reasoning models (some m) = some (exact_resolution requested reasoning m)

unfoldable pub resolve_codex_model_selection :
    List ModelSummary → String → Option ReasoningLevel → Option Resolution
resolve_codex_model_selection [] requested reasoning = none
resolve_codex_model_selection (m ∷ ms) requested reasoning =
    if str_eq requested ""
    then none
    else exact_or requested reasoning (m ∷ ms) (first (λ model. str_eq model.id requested) (m ∷ ms))
