-- ===== src/Registry/Catalog.antt =====
-- The catalog of the allowed models (packages/model-registry/src/model-catalog.ts).
use gana_v.Prelude.{String, Option, none, some, List, [], ◌∷◌, map, or_else}
use gana_v.Storage.{get_by_id, save}
use gana_v.Registry.Models.{ReasoningLevel, ModelOption, allowed_models, bundled_option}

abbrev pub option_key : ModelOption → String
option_key m = m.id

-- `getAllowedCodexModelOptions`, which is the fallback catalog
abbrev pub fallback_models : List ModelOption
fallback_models = map bundled_option allowed_models

-- `new Map(models.map((model) => [model.id, model]))`: the last of an id stays, at the place of the
-- first.
abbrev pub index_models : List ModelOption → List ModelOption → List ModelOption
index_models index [] = index
index_models index (m ∷ ms) = index_models (save option_key m index) ms

abbrev pub levels_or : List ReasoningLevel → List ReasoningLevel → List ReasoningLevel
levels_or [] fallback = fallback
levels_or (l ∷ ls) fallback = l ∷ ls

-- `merged`: what upstream says of an allowed model, under the fallback's id and label.
abbrev pub merged : ModelOption → ModelOption → ModelOption
merged fallback upstream = record {
  id = fallback.id;
  label = fallback.label;
  supports_web_search = upstream.supports_web_search;
  default_reasoning = or_else upstream.default_reasoning fallback.default_reasoning;
  supported_reasoning_levels =
      levels_or upstream.supported_reasoning_levels fallback.supported_reasoning_levels;
  availability_source = or_else upstream.availability_source fallback.availability_source;
}

abbrev pub merge_model : ModelOption → Option ModelOption → ModelOption
merge_model fallback none = fallback
merge_model fallback (some upstream) = merged fallback upstream

-- `buildAiModelCatalog`; the fallback has an entry for every allowed id, so none is missing.
unfoldable pub build_ai_model_catalog : List ModelOption → List ModelOption
unfolding get_by_id save
build_ai_model_catalog upstream =
    map (λ m. merge_model m (get_by_id option_key m.id (index_models [] upstream))) fallback_models
