-- ===== src/Registry/Request.antt =====
-- `resolveModelSelection` (packages/model-registry/src/model-selection.ts): the choice of a model
-- for a provider, from a catalog or the bundled one.
use gana_v.Prelude.{
  String, ◌&&◌, not, Option, none, some, List, [], ◌∷◌, map, if◌then◌else◌, head, get_or,
}
use gana_v.Prelude.Texts.{str_eq, join}
use gana_v.Registry.Models.{ReasoningLevel, ModelOption}
use gana_v.Registry.Allowed.{is_allowed_ai_model_id, default_allowed_codex_model}
use gana_v.Registry.Catalog.{build_ai_model_catalog, fallback_models}
use gana_v.Registry.Selection.{
  Resolution, cross_model_fallback, to_codex_model_summary, resolve_codex_model_selection,
}

-- The catalog is the list of its only provider.
pub record ModelSelectionInput : Type 0 where
  pub provider : String
  pub requested_model : Option String
  pub requested_reasoning : Option ReasoningLevel
  pub catalog : Option (List ModelOption)

-- A selection, or the message of the error that is thrown.
pub data Selected : Type 0 where
  selected : Resolution → Selected
  refused : String → Selected

-- `requestedModel`: the text is looked up as it was given.
unfoldable pub requested_or_default : Option String → String
unfolding is_allowed_ai_model_id
requested_or_default none = default_allowed_codex_model
requested_or_default (some model) =
    if not (str_eq model "") && is_allowed_ai_model_id (some model)
    then model
    else default_allowed_codex_model

abbrev pub bundled_resolution : String → Option ReasoningLevel → ModelOption → Resolution
bundled_resolution requested reasoning fallback = record {
  requested_model = some requested;
  requested_reasoning = reasoning;
  resolved_model = fallback.id;
  resolved_reasoning = fallback.default_reasoning;
  fallback_reason = some (
      some (
        join (
          requested ∷ " could not be resolved; using bundled fallback " ∷ fallback.id ∷ "." ∷ [])));
  resolution_kind = cross_model_fallback;
  resolved_model_source = fallback.availability_source;
}

abbrev pub or_bundled :
    String → Option ReasoningLevel → Option ModelOption → Option Resolution → Selected
or_bundled requested reasoning fallback (some selection) = selected selection
or_bundled requested reasoning (some fallback) none =
    selected (bundled_resolution requested reasoning fallback)
or_bundled requested reasoning none none = refused "Codex fallback catalog is empty."

unfoldable pub resolve_model_selection : ModelSelectionInput → Selected
unfolding requested_or_default build_ai_model_catalog resolve_codex_model_selection
resolve_model_selection input =
    if not (str_eq input.provider "codex")
    then refused (join ("Unsupported AI provider: " ∷ input.provider ∷ []))
    else (let requested = requested_or_default input.requested_model in
        or_bundled requested input.requested_reasoning (head fallback_models) (
          resolve_codex_model_selection
            (map to_codex_model_summary (get_or input.catalog (build_ai_model_catalog [])))
            requested input.requested_reasoning))
