-- ===== src/Registry/Resolution.antt =====
-- What a resolution says of the model that it names
-- (packages/model-registry/src/model-selection.ts).
use gana_v.Prelude.{
  ◌≡◌, refl, ◌⊎◌, inl, inr, String, Bool, true, false, Option, none, some, List, [], ◌∷◌, Memᴰ,
  first, head, All, Option-cases, some-eq, or_left, or_right, if◌then◌else◌,
}
use gana_v.Prelude.Find.{first-mem, first_passes, first-none, head-mem, All-mem}
use gana_v.Prelude.Texts.{str_eq, str_eq-eq}
use gana_v.Registry.Models.{ReasoningLevel, supports}
use gana_v.Registry.Reasoning.{IsBest, choose-IsBest}
use gana_v.Registry.Selection.{
  ModelSummary, Resolution, matches_requested_model, infer_resolution_kind, exact_resolution,
  variant_resolution, fallback_resolution, cross_candidate, variant_or, exact_or,
  resolve_codex_model_selection,
}
use mathlib.Core.Path.{subst}
use Prim.Native.String.{◌++◌ as concat}
use text.Mathlib.Text.{starts_with}

-- What the resolution is, by the model that was found.
pub data Origin (models : List ModelSummary) (requested : String)
    (reasoning : Option ReasoningLevel) : Resolution → Type 0 where
  exact :
      {m : ModelSummary}
      → Memᴰ m models
      → str_eq m.id requested ≡ true
      → Origin models requested reasoning (exact_resolution requested reasoning m)
  variant :
      {m : ModelSummary}
      → Memᴰ m models
      → All (λ n. str_eq n.id requested ≡ false) models
      → matches_requested_model m.id requested ≡ true
      → Origin models requested reasoning (variant_resolution requested reasoning m)
  fallback :
      {m : ModelSummary}
      → Memᴰ m models
      → All (λ n. matches_requested_model n.id requested ≡ false) models
      → Origin models requested reasoning (fallback_resolution requested reasoning m)

module _ (models : List ModelSummary) (requested : String) (reasoning : Option ReasoningLevel) where
  cross_candidate-mem :
      (r : Option ReasoningLevel) (m : ModelSummary)
      → cross_candidate r models ≡ some m
      → Memᴰ m models
  cross_candidate-mem none m e = head-mem models m e
  cross_candidate-mem (some level) m e =
      elim (Option-cases (first (λ m. supports m.supported_reasoning_levels level) models)) [
        | inl n ↦ head-mem models m (rw n at e)
        | inr (x, f) ↦
            let q : x ≡ m = some-eq (rw f at e) in
            subst (λ z. Memᴰ z models) q (first-mem _ models x f)
      ]

  variant_or-Origin :
      (s : Resolution)
      → All (λ m. matches_requested_model m.id requested ≡ false) models
      → variant_or requested reasoning models none ≡ some s
      → Origin models requested reasoning s
  variant_or-Origin s h e = elim (Option-cases (cross_candidate reasoning models)) [
    | inl n ↦ let q = rw n at e in cc
    | inr (m, f) ↦
        let i = cross_candidate-mem reasoning m f in
        subst (Origin models requested reasoning) (some-eq (rw f at e)) (fallback i h)
  ]

  exact_or-Origin :
      (s : Resolution)
      → All (λ m. str_eq m.id requested ≡ false) models
      → exact_or requested reasoning models none ≡ some s
      → Origin models requested reasoning s
  exact_or-Origin s h e =
      elim (Option-cases (first (λ m. matches_requested_model m.id requested) models)) [
        | inl n ↦ variant_or-Origin s (first-none _ models n) (rw n at e)
        | inr (m, f) ↦
            let i = first-mem _ models m f in
            subst (Origin models requested reasoning) (some-eq (rw f at e))
              (variant i h (first_passes _ models m f))
      ]

  resolve-Origin :
      (s : Resolution)
      → exact_or requested reasoning models (first (λ model. str_eq model.id requested) models)
        ≡ some s
      → Origin models requested reasoning s
  resolve-Origin s e = elim (Option-cases (first (λ m. str_eq m.id requested) models)) [
    | inl n ↦ exact_or-Origin s (first-none _ models n) (rw n at e)
    | inr (m, f) ↦
        subst (Origin models requested reasoning) (some-eq (rw f at e))
          (exact (first-mem _ models m f) (first_passes _ models m f))
  ]

-- The kind that `inferResolutionKind` finds is the one that was given.
infer-Origin :
    (models : List ModelSummary) (requested : String) (reasoning : Option ReasoningLevel)
    (s : Resolution)
    → str_eq requested "" ≡ false
    → Origin models requested reasoning s
    → infer_resolution_kind s ≡ s.resolution_kind
unfolding infer_resolution_kind
infer-Origin models requested reasoning _ ne (exact {m} i e) = rw (ne, e) refl
infer-Origin models requested reasoning _ ne (variant {m} i e f) =
    let a = All-mem _ models m e i in let g = rw a at f in rw (ne, a, g) refl
infer-Origin models requested reasoning _ ne (fallback {m} i f) =
    let g = All-mem _ models m f i in
    let a = or_left (str_eq m.id requested) (starts_with m.id (concat requested "-")) g in
    let b = or_right (str_eq m.id requested) (starts_with m.id (concat requested "-")) g in
    rw (ne, a, b) refl

unless-empty :
    (b : Bool) (o : Option Resolution) (s : Resolution)
    → (if b then none else o) ≡ some s
    → (b ≡ false) × (o ≡ some s)
unless-empty true o s e = cc
unless-empty false o s e = (refl, e)

-- Whatever the catalog, the kind that `resolveCodexModelSelection` gives is the one that
-- `inferResolutionKind` finds from the requested and the resolved model and level of reasoning.
pub infer-resolve :
    (models : List ModelSummary) (requested : String) (reasoning : Option ReasoningLevel)
    (s : Resolution)
    → resolve_codex_model_selection models requested reasoning ≡ some s
    → infer_resolution_kind s ≡ s.resolution_kind
unfolding resolve_codex_model_selection
infer-resolve [] requested reasoning s e = cc
infer-resolve (m ∷ ms) requested reasoning s e =
    let (ne, f) = unless-empty (str_eq requested "") _ s e in
    infer-Origin (m ∷ ms) requested reasoning s ne (resolve-Origin (m ∷ ms) requested reasoning s f)

-- The members of a resolution that every branch fills alike, and the model that it names.
pub record Names (models : List ModelSummary) (requested : String)
    (reasoning : Option ReasoningLevel) (s : Resolution) : Type 0 where
  pub request : s.requested_model ≡ some requested
  pub model : ModelSummary
  pub offered : Memᴰ model models
  pub named : s.resolved_model ≡ model.id
  pub source : s.resolved_model_source ≡ some model.availability_source
  pub best :
      IsBest model.supported_reasoning_levels reasoning model.default_reasoning_level
        s.resolved_reasoning
  pub tier :
      (model.id ≡ requested)
      ⊎ (All (λ n. str_eq n.id requested ≡ false) models
          × (starts_with model.id (concat requested "-") ≡ true))
      ⊎ All (λ n. matches_requested_model n.id requested ≡ false) models

Origin-Names :
    (models : List ModelSummary) (requested : String) (reasoning : Option ReasoningLevel)
    (s : Resolution)
    → Origin models requested reasoning s
    → Names models requested reasoning s
Origin-Names models requested reasoning _ (exact {m} i e) = record {
  request = refl;
  model = m;
  offered = i;
  named = refl;
  source = refl;
  best = choose-IsBest m reasoning;
  tier = inl (str_eq-eq m.id requested e);
}
Origin-Names models requested reasoning _ (variant {m} i e f) =
    let a = All-mem _ models m e i in
    record {
      request = refl;
      model = m;
      offered = i;
      named = refl;
      source = refl;
      best = choose-IsBest m reasoning;
      tier = inr (inl (e, rw a at f));
    }
Origin-Names models requested reasoning _ (fallback {m} i f) = record {
  request = refl;
  model = m;
  offered = i;
  named = refl;
  source = refl;
  best = choose-IsBest m reasoning;
  tier = inr (inr f);
}

resolves :
    (models : List ModelSummary) (m : ModelSummary) (requested : String)
    (reasoning : Option ReasoningLevel)
    → head models ≡ some m
    → (s : Resolution) × (exact_or requested reasoning models
          (first (λ model. str_eq model.id requested) models)
        ≡ some s)
resolves models m requested reasoning h =
    elim (Option-cases (first (λ n. str_eq n.id requested) models)) [
      | inr (x, f) ↦ rw f (_, refl)
      | inl n ↦ elim (Option-cases (first (λ n. matches_requested_model n.id requested) models)) [
        | inr (x, f) ↦ rw (n, f) (_, refl)
        | inl k ↦ let (x, c) = has_candidate reasoning in rw (n, k, c) (_, refl)
      ]
    ]
  where
    has_candidate :
        (r : Option ReasoningLevel) → (x : ModelSummary) × (cross_candidate r models ≡ some x)
    has_candidate none = (m, h)
    has_candidate (some level) =
        elim (Option-cases (first (λ x. supports x.supported_reasoning_levels level) models)) [
          | inl n ↦ (m, rw n h)
          | inr (x, f) ↦ (x, rw f refl)
        ]

-- For a non-empty request and a catalog with at least one model, a resolution is given. It names a
-- model of the catalog and the model's source, and its level is the best choice of that model: a
-- level that the model supports, the requested one where it is supported, else the default one where
-- that is, else one of the highest rank, and none only where the model supports none. The model has
-- the requested id; or no model has, and its id begins with the requested id and a dash; or no id of
-- the catalog matches.
pub resolve-Names :
    (m : ModelSummary) (ms : List ModelSummary) (requested : String)
    (reasoning : Option ReasoningLevel)
    → str_eq requested "" ≡ false
    → (s : Resolution) × (resolve_codex_model_selection (m ∷ ms) requested reasoning ≡ some s)
      × Names (m ∷ ms) requested reasoning s
unfolding resolve_codex_model_selection
resolve-Names m ms requested reasoning ne =
    let (s, e) = resolves (m ∷ ms) m requested reasoning refl in
    (
      s,
      rw ne e,
      Origin-Names (m ∷ ms) requested reasoning s (resolve-Origin (m ∷ ms) requested reasoning s e),
    )
