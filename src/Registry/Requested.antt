-- ===== src/Registry/Requested.antt =====
-- What `resolveModelSelection` answers with a catalog that `buildAiModelCatalog` has built
-- (packages/model-registry/src).
use mathlib.Core.Path.{subst, subst⁻¹}
use Prim.Native.String.{◌++◌ as concat}
use text.Mathlib.Text.{starts_with}
use gana_v.Prelude.{
  ◌≡◌, ◌≢◌, refl, sym, ◌∙◌, inl, inr, String, Bool, true, false, Option, none, some, List, [], ◌∷◌,
  map, any, All, All-map, All-map_with, arith, Bool-cases, or_left, or_right,
}
use gana_v.Prelude.Find.{All-mem}
use gana_v.Prelude.Texts.{str_eq, str_eq-eq, str_eq_refl}
use gana_v.Storage.{get_by_id}
use gana_v.Registry.Models.{ReasoningLevel, ModelOption}
use gana_v.Registry.Allowed.{
  trim, allowed_ids, is_allowed_text, is_allowed_ai_model_id, sanitize_allowed_ai_model_id,
}
use gana_v.Registry.Catalog.{
  merge_model, build_ai_model_catalog, fallback_models, option_key, index_models,
}
use gana_v.Registry.Selection.{
  ModelSummary, Resolution, cross_model_fallback, to_codex_model_summary, infer_resolution_kind,
  matches_requested_model, resolve_codex_model_selection,
}
use gana_v.Registry.Request.{
  ModelSelectionInput, selected, requested_or_default, resolve_model_selection,
}
use gana_v.Registry.Resolution.{Names, infer-resolve, resolve-Names}
use gana_v.Registry.Trimmed.{allowed-trimmed, begins-trimmed}

-- What the code looks the requested model up in.
abbrev pub offered_models : List ModelOption → List ModelSummary
offered_models upstream = map to_codex_model_summary (build_ai_model_catalog upstream)

abbrev pub codex_input :
    Option String → Option ReasoningLevel → List ModelOption → ModelSelectionInput
codex_input requested reasoning upstream = record {
  provider = "codex";
  requested_model = requested;
  requested_reasoning = reasoning;
  catalog = some (build_ai_model_catalog upstream);
}

merge_model-id : (m : ModelOption) (o : Option ModelOption) → (merge_model m o).id ≡ m.id
merge_model-id m none = refl
merge_model-id m (some upstream) = refl

module _ (P : String → Type 0) (f : ModelOption → Option ModelOption) where
  abbrev summaries : List ModelOption → List ModelSummary
  summaries ms = map to_codex_model_summary (map (λ m. merge_model m (f m)) ms)

  merged_all :
      (ms : List ModelOption)
      → All (λ m. P m.id) ms
      → All (λ (m : ModelSummary). P m.id) (summaries ms)
  merged_all [] h = tt
  merged_all (m ∷ ms) (p, h) = (subst⁻¹ P (merge_model-id m (f m)) p, merged_all ms h)

  all_merged :
      (ms : List ModelOption)
      → All (λ (m : ModelSummary). P m.id) (summaries ms)
      → All (λ m. P m.id) ms
  all_merged [] h = tt
  all_merged (m ∷ ms) (p, h) = (subst P (merge_model-id m (f m)) p, all_merged ms h)

-- What holds of the allowed ids holds of the ids of the catalog, and the other way round.
offered-all :
    (P : String → Type 0) (upstream : List ModelOption)
    → All P allowed_ids
    → All (λ (m : ModelSummary). P m.id) (offered_models upstream)
unfolding build_ai_model_catalog
offered-all P upstream h =
    merged_all P (λ m. get_by_id option_key m.id (index_models [] upstream)) fallback_models h

all-offered :
    (P : String → Type 0) (upstream : List ModelOption)
    → All (λ (m : ModelSummary). P m.id) (offered_models upstream)
    → All P allowed_ids
unfolding build_ai_model_catalog
all-offered P upstream h =
    all_merged P (λ m. get_by_id option_key m.id (index_models [] upstream)) fallback_models h

allowed_allowed : All (λ id. is_allowed_text id ≡ true) allowed_ids
allowed_allowed = (refl, (refl, (refl, tt)))

none_passes :
    (p : String → Bool) (ids : List String) → All (λ id. p id ≡ false) ids → any p ids ≡ false
none_passes p [] h = refl
none_passes p (id ∷ ids) (e, h) = ground (arith, e, none_passes p ids h)

requested-nonempty : (o : Option String) → str_eq (requested_or_default o) "" ≡ false
unfolding requested_or_default
requested-nonempty none = refl
requested-nonempty (some v) = elim (Bool-cases (str_eq v "")) [
  | inl e ↦ rw e refl
  | inr n ↦ elim (Bool-cases (is_allowed_ai_model_id (some v))) [
    | inl a ↦ rw (n, a) n
    | inr a ↦ rw (n, a) refl
  ]
]

module _ (requested : Option String) (reasoning : Option ReasoningLevel)
    (upstream : List ModelOption) where
  abbrev looked_up : String
  looked_up = requested_or_default requested

  selection :
      (s : Resolution) × (resolve_codex_model_selection
          (offered_models upstream)
          looked_up
          reasoning
        ≡ some s)
      × Names (offered_models upstream) looked_up reasoning s
  unfolding build_ai_model_catalog
  selection = resolve-Names _ _ looked_up reasoning (requested-nonempty requested)

  answers :
      (s : Resolution)
      → resolve_codex_model_selection (offered_models upstream) looked_up reasoning ≡ some s
      → resolve_model_selection (codex_input requested reasoning upstream) ≡ selected s
  unfolding resolve_model_selection
  answers s e = rw e refl

  names_allowed :
      (s : Resolution)
      → Names (offered_models upstream) looked_up reasoning s
      → is_allowed_text s.resolved_model ≡ true
  names_allowed s n =
      let h = offered-all (λ id. is_allowed_text id ≡ true) upstream allowed_allowed in
      subst⁻¹ (λ id. is_allowed_text id ≡ true) n.named
        (All-mem (λ (m : ModelSummary). is_allowed_text m.id ≡ true) (offered_models upstream)
          n.model h n.offered)

  no_id :
      (s : Resolution) (n : Names (offered_models upstream) looked_up reasoning s)
      → All (λ (m : ModelSummary). str_eq m.id looked_up ≡ false) (offered_models upstream)
      → str_eq s.resolved_model looked_up ≡ is_allowed_text looked_up
  no_id s n h =
      let mine =
        All-mem (λ (m : ModelSummary). str_eq m.id looked_up ≡ false) (offered_models upstream)
          n.model h n.offered in
      let left : str_eq s.resolved_model looked_up ≡ false =
        subst⁻¹ (λ id. str_eq id looked_up ≡ false) n.named mine in
      let right : is_allowed_text looked_up ≡ false =
        none_passes (λ id. str_eq id looked_up) allowed_ids
          (all-offered (λ id. str_eq id looked_up ≡ false) upstream h) in
      left ∙ sym right

  exact_or_other :
      (s : Resolution) (n : Names (offered_models upstream) looked_up reasoning s)
      → str_eq s.resolved_model looked_up ≡ is_allowed_text looked_up
  exact_or_other s n = elim n.tier [
    | inl same ↦
        let named : s.resolved_model ≡ looked_up = n.named ∙ same in
        subst (λ id. str_eq s.resolved_model id ≡ is_allowed_text id) named
          (str_eq_refl s.resolved_model ∙ sym (names_allowed s n))
    | inr (inl (h, b)) ↦ no_id s n h
    | inr (inr h) ↦ no_id s n (
        All-map (λ (m : ModelSummary). matches_requested_model m.id looked_up ≡ false)
          (λ (m : ModelSummary). str_eq m.id looked_up ≡ false)
          (λ m q. or_left (str_eq m.id looked_up) (starts_with m.id (concat looked_up "-")) q)
          (offered_models upstream) h)
  ]

-- With a catalog built from whatever upstream offers, `resolveModelSelection` always selects a
-- model for the provider "codex", and the model is an allowed one. It is the model that is looked
-- up, the requested text or "gpt-5.4", exactly where that text is an allowed id. Its level of
-- reasoning, its source and how close it is to what is looked up are as `resolveCodexModelSelection`
-- promises for the catalog.
pub resolve_model_selection-allowed :
    (requested : Option String) (reasoning : Option ReasoningLevel) (upstream : List ModelOption)
    → (s : Resolution) × (resolve_model_selection (codex_input requested reasoning upstream)
        ≡ selected s)
      × (is_allowed_text s.resolved_model ≡ true)
      × (str_eq s.resolved_model (requested_or_default requested)
          ≡ is_allowed_text (requested_or_default requested))
      × Names (offered_models upstream) (requested_or_default requested) reasoning s
resolve_model_selection-allowed requested reasoning upstream =
    let (s, e, n) = selection requested reasoning upstream in
    (
      s,
      answers requested reasoning upstream s e,
      names_allowed requested reasoning upstream s n,
      exact_or_other requested reasoning upstream s n,
      n,
    )

module _ (v : String) (allowed : is_allowed_ai_model_id (some v) ≡ true) (padded : trim v ≢ v) where
  nonempty : str_eq v "" ≡ false
  unfolding trim
  nonempty = elim (Bool-cases (str_eq v "")) [
    | inl e ↦ absurd (padded (subst⁻¹ (λ x. trim x ≡ x) (str_eq-eq v "" e) refl))
    | inr n ↦ n
  ]

  looked_up_padded : requested_or_default (some v) ≡ v
  unfolding requested_or_default
  looked_up_padded = rw (nonempty, allowed) refl

  -- An allowed id is not the padded text, and does not begin with it.
  other :
      (id : String)
      → (starts_with id (concat v "-") ≡ true → trim v ≡ v)
      → trim id ≡ id
      → matches_requested_model id v ≡ false
  other id begins trimmed = elim (Bool-cases (str_eq id v)) [
    | inl e ↦ absurd (padded (subst (λ x. trim x ≡ x) (str_eq-eq id v e) trimmed))
    | inr n ↦ elim (Bool-cases (starts_with id (concat v "-"))) [
      | inl e ↦ absurd (padded (begins e))
      | inr k ↦ rw (n, k) refl
    ]
  ]

  unmatched :
      (upstream : List ModelOption)
      → All (λ (m : ModelSummary). matches_requested_model m.id v ≡ false) (offered_models upstream)
  unmatched upstream =
      offered-all (λ id. matches_requested_model id v ≡ false) upstream
        (All-map_with (λ id. trim id ≡ id) (λ id. matches_requested_model id v ≡ false) other
          allowed_ids (begins-trimmed v "-") allowed-trimmed)

  -- So no model of the catalog is named, and the kind is that of a fallback.
  inferred :
      (reasoning : Option ReasoningLevel) (upstream : List ModelOption) (s : Resolution)
      → Names (offered_models upstream) v reasoning s
      → infer_resolution_kind s ≡ cross_model_fallback
  unfolding infer_resolution_kind
  inferred reasoning upstream s n =
      let h : matches_requested_model s.resolved_model v ≡ false =
        subst⁻¹ (λ id. matches_requested_model id v ≡ false) n.named
          (All-mem (λ (m : ModelSummary). matches_requested_model m.id v ≡ false)
            (offered_models upstream) n.model (unmatched upstream) n.offered) in
      let a = or_left (str_eq s.resolved_model v) (starts_with s.resolved_model (concat v "-")) h in
      let b =
        or_right (str_eq s.resolved_model v) (starts_with s.resolved_model (concat v "-")) h in
      rw (n.request, nonempty, a, b) refl

-- A requested text that `isAllowedAiModelId` accepts, but that has white space at an end: although
-- `sanitizeAllowedAiModelId` takes it for the allowed id within it, `resolveModelSelection` looks
-- for the text with its white space, and answers with a model of the catalog as a fallback.
pub resolve_model_selection-padded :
    (v fallback : String) (reasoning : Option ReasoningLevel) (upstream : List ModelOption)
    → is_allowed_ai_model_id (some v) ≡ true
    → trim v ≢ v
    → (sanitize_allowed_ai_model_id (some v) fallback ≡ trim v)
      × (is_allowed_text (trim v) ≡ true)
      × (s : Resolution) × (resolve_model_selection (codex_input (some v) reasoning upstream)
          ≡ selected s)
      × (s.resolution_kind ≡ cross_model_fallback)
unfolding sanitize_allowed_ai_model_id
resolve_model_selection-padded v fallback reasoning upstream allowed padded =
    let (s, e, n) = selection (some v) reasoning upstream in
    let named : Names (offered_models upstream) v reasoning s =
      subst (λ x. Names (offered_models upstream) x reasoning s) (looked_up_padded v allowed padded)
        n in
    (
      rw allowed refl,
      allowed,
      s,
      answers (some v) reasoning upstream s e,
      sym (infer-resolve (offered_models upstream) (requested_or_default (some v)) reasoning s e)
          ∙ inferred v allowed padded reasoning upstream s named,
    )
