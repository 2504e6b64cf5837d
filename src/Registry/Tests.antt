-- ===== src/Registry/Tests.antt =====
-- Concrete catalogs and requests.
use mathlib.Core.Bool.{true≢false}
use gana_v.Prelude.Texts.{str_eq}
use gana_v.Registry.Allowed.{
  is_allowed_text, is_allowed_ai_model_id, sanitize_allowed_ai_model_id, trim,
}
use gana_v.Registry.Request.{selected, requested_or_default, resolve_model_selection}
use gana_v.Registry.Requested.{
  codex_input, offered_models, resolve_model_selection-allowed, resolve_model_selection-padded,
}
use gana_v.Prelude.{◌≡◌, ◌≢◌, refl, ap, true, false, none, some, List, [], ◌∷◌, map}
use gana_v.Prelude.Sort.{sort}
use gana_v.Registry.Models.{minimal, low, medium, high, probed, ModelOption}
use gana_v.Registry.Selection.{
  ModelSummary, Resolution, cross_model_fallback, to_codex_model_summary, choose_best_reasoning,
  get_highest_reasoning_level, infer_resolution_kind, resolve_codex_model_selection,
}
use gana_v.Registry.Resolution.{Names, infer-resolve, resolve-Names}

abbrev small : ModelOption
small = record {
  id = "gpt-5.4-mini";
  label = "mini";
  supports_web_search = true;
  default_reasoning = some high;
  supported_reasoning_levels = low ∷ minimal ∷ [];
  availability_source = some probed;
}

abbrev offered : List ModelSummary
offered = map to_codex_model_summary (small ∷ [])

adjusted :
    (s : Resolution) × (resolve_codex_model_selection offered "gpt-5.4-mini" (some medium) ≡ some s)
unfolding resolve_codex_model_selection
adjusted = (_, refl)

infer-resolve_example : infer_resolution_kind adjusted.0 ≡ adjusted.0.resolution_kind
infer-resolve_example = infer-resolve offered "gpt-5.4-mini" (some medium) adjusted.0 adjusted.1

test-names :
    (s : Resolution) × (resolve_codex_model_selection offered "gpt-5.4" (some medium) ≡ some s)
    × Names offered "gpt-5.4" (some medium) s
test-names = resolve-Names (to_codex_model_summary small) [] "gpt-5.4" (some medium) refl

highest_is_low : choose_best_reasoning (to_codex_model_summary small) (some medium) ≡ some low
unfolding choose_best_reasoning get_highest_reasoning_level sort
highest_is_low = refl

an_unknown_model_falls_back :
    (s : Resolution) × (resolve_codex_model_selection offered "gpt-4" none ≡ some s)
    × (s.resolution_kind ≡ cross_model_fallback)
unfolding resolve_codex_model_selection
an_unknown_model_falls_back = (_, refl, refl)

resolve_model_selection-allowed_example :
    (s : Resolution) × (resolve_model_selection
        (codex_input (some "gpt-5.4-mini") (some high) (small ∷ []))
      ≡ selected s)
    × (is_allowed_text s.resolved_model ≡ true)
    × (str_eq s.resolved_model (requested_or_default (some "gpt-5.4-mini"))
        ≡ is_allowed_text (requested_or_default (some "gpt-5.4-mini")))
    × Names (offered_models (small ∷ [])) (requested_or_default (some "gpt-5.4-mini")) (some high) s
resolve_model_selection-allowed_example =
    resolve_model_selection-allowed (some "gpt-5.4-mini") (some high) (small ∷ [])

padded_id : trim "gpt-5.4-mini " ≢ "gpt-5.4-mini "
unfolding trim
padded_id e = let q : true ≡ false = ap (λ s. str_eq s "gpt-5.4-mini") e in true≢false q

padded_allowed : is_allowed_ai_model_id (some "gpt-5.4-mini ") ≡ true
unfolding is_allowed_ai_model_id
padded_allowed = refl

resolve_model_selection-padded_example :
    (sanitize_allowed_ai_model_id (some "gpt-5.4-mini ") "gpt-5.4" ≡ trim "gpt-5.4-mini ")
    × (is_allowed_text (trim "gpt-5.4-mini ") ≡ true)
    × (s : Resolution) × (resolve_model_selection (codex_input (some "gpt-5.4-mini ") none [])
        ≡ selected s)
    × (s.resolution_kind ≡ cross_model_fallback)
resolve_model_selection-padded_example =
    resolve_model_selection-padded "gpt-5.4-mini " "gpt-5.4" none [] padded_allowed padded_id

-- The answer names another model.
test-padded :
    (s : Resolution) × (resolve_model_selection (codex_input (some "gpt-5.4-mini ") none [])
      ≡ selected s)
    × (s.resolved_model ≡ "gpt-5.4")
unfolding resolve_model_selection
test-padded = (_, refl, refl)
