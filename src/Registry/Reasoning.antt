-- ===== src/Registry/Reasoning.antt =====
-- What `chooseBestReasoning` chooses (packages/model-registry/src/model-selection.ts).
use gana_v.Prelude.{
  ◌≡◌, refl, sym, ◌∙◌, ◌≤◌, ℕ, Bool, true, false, Option, none, some, List, [], ◌∷◌, arith, Memᴰ,
  All, All-map, All-head, head-none, Bool-cases, some-eq, ltb, or_else, inl, inr,
}
use gana_v.Prelude.Find.{all_of_mem}
use mathlib.Core.Path.{subst}
use gana_v.Prelude.Sort.{sort, IsOrder, head-sort-first, All-sort, sort-nil}
use gana_v.Registry.Models.{ReasoningLevel, same_level, supports, get_reasoning_rank}
use gana_v.Registry.Selection.{
  ModelSummary, if_supported, get_highest_reasoning_level, choose_best_reasoning,
}

-- What a choice among levels has to be, given the level that is asked for and the default one.
pub record IsBest (levels : List ReasoningLevel) (preferred default : Option ReasoningLevel)
    (chosen : Option ReasoningLevel) : Type 0 where
  pub supported : (l : ReasoningLevel) → chosen ≡ some l → supports levels l ≡ true
  pub missing : chosen ≡ none → levels ≡ []
  pub asked : (l : ReasoningLevel) → if_supported levels preferred ≡ some l → chosen ≡ some l
  pub usual :
      (l : ReasoningLevel)
      → if_supported levels preferred ≡ none
      → if_supported levels default ≡ some l
      → chosen ≡ some l
  pub highest :
      (l : ReasoningLevel)
      → if_supported levels preferred ≡ none
      → if_supported levels default ≡ none
      → chosen ≡ some l
      → All (λ k. get_reasoning_rank k ≤ get_reasoning_rank l) levels

abbrev higher : ReasoningLevel → ReasoningLevel → Bool
higher left right = ltb (get_reasoning_rank right) (get_reasoning_rank left)

less_asym : (a b : ℕ) → ltb a b ≡ true → ltb b a ≡ false
less_asym a b h = ground arith

less_trans : (a b c : ℕ) → ltb a b ≡ false → ltb b c ≡ false → ltb a c ≡ false
less_trans a b c h k = ground arith

not_less : (a b : ℕ) → ltb a b ≡ false → b ≤ a
not_less a b h = ground arith

higher-IsOrder : IsOrder higher
higher-IsOrder = record {
  asym = λ x y h. less_asym (get_reasoning_rank y) (get_reasoning_rank x) h;
  trans = λ x y z h k.
      less_trans (get_reasoning_rank x) (get_reasoning_rank y) (get_reasoning_rank z) h k;
}

same_level_refl : (l : ReasoningLevel) → same_level l l ≡ true
same_level_refl l = ground arith

supports-mem :
    (levels : List ReasoningLevel) (l : ReasoningLevel) → Memᴰ l levels → supports levels l ≡ true
supports-mem (k ∷ ks) l (Memᴰ.head e) =
    let s = same_level_refl k in let r = subst (λ z. same_level k z ≡ true) (sym e) s in rw r refl
supports-mem (k ∷ ks) l (Memᴰ.tail i) = let s = supports-mem ks l i in ground arith
supports-mem [] l i = elim i [ ]

supported_passes :
    (levels : List ReasoningLevel) (o : Option ReasoningLevel) (l : ReasoningLevel)
    → if_supported levels o ≡ some l
    → supports levels l ≡ true
supported_passes levels none l e = cc
supported_passes levels (some k) l e = elim (Bool-cases (supports levels k)) [
  | inl t ↦ let q = some-eq (rw t at e) in subst (λ z. supports levels z ≡ true) q t
  | inr f ↦ let q = rw f at e in cc
]

module _ (levels : List ReasoningLevel) where
  highest_supported :
      (l : ReasoningLevel) → get_highest_reasoning_level levels ≡ some l → supports levels l ≡ true
  unfolding get_highest_reasoning_level
  highest_supported l e =
      All-head (λ k. supports levels k ≡ true) (sort higher levels) l
        (All-sort higher (λ k. supports levels k ≡ true) levels
          (all_of_mem (λ k. supports levels k ≡ true) levels (supports-mem levels)))
        e

  highest_missing : get_highest_reasoning_level levels ≡ none → levels ≡ []
  unfolding get_highest_reasoning_level
  highest_missing e = sort-nil higher levels (head-none _ e)

  highest_ranks :
      (l : ReasoningLevel)
      → get_highest_reasoning_level levels ≡ some l
      → All (λ k. get_reasoning_rank k ≤ get_reasoning_rank l) levels
  unfolding get_highest_reasoning_level
  highest_ranks l e =
      All-map (λ k. higher k l ≡ false) (λ k. get_reasoning_rank k ≤ get_reasoning_rank l)
        (λ k h. not_less _ _ h) levels (head-sort-first higher higher-IsOrder levels l e)

pub choose-IsBest :
    (m : ModelSummary) (preferred : Option ReasoningLevel)
    → IsBest m.supported_reasoning_levels preferred m.default_reasoning_level
        (choose_best_reasoning m preferred)
unfolding choose_best_reasoning
choose-IsBest m preferred =
    best (if_supported m.supported_reasoning_levels preferred)
      (if_supported m.supported_reasoning_levels m.default_reasoning_level) refl refl
  where
    best :
        (p d : Option ReasoningLevel)
        → if_supported m.supported_reasoning_levels preferred ≡ p
        → if_supported m.supported_reasoning_levels m.default_reasoning_level ≡ d
        → IsBest m.supported_reasoning_levels preferred m.default_reasoning_level (
            or_else (if_supported m.supported_reasoning_levels preferred) (
              or_else
                (if_supported m.supported_reasoning_levels m.default_reasoning_level)
                (get_highest_reasoning_level m.supported_reasoning_levels)))
    best (some k) d e f = rw e record {
      supported = λ l h. supported_passes _ preferred l (e ∙ h);
      missing = λ h. cc;
      asked = λ l h. sym e ∙ h;
      usual = λ l h g. cc;
      highest = λ l h g c. cc;
    }
    best none (some k) e f =
        rw (e, f)
          record {
            supported = λ l h. supported_passes _ m.default_reasoning_level l (f ∙ h);
            missing = λ h. cc;
            asked = λ l h. cc;
            usual = λ l h g. sym f ∙ g;
            highest = λ l h g c. cc;
          }
    best none none e f =
        rw (e, f)
          record {
            supported = λ l h. highest_supported _ l h;
            missing = λ h. highest_missing _ h;
            asked = λ l h. cc;
            usual = λ l h g. cc;
            highest = λ l h g c. highest_ranks _ l c;
          }
