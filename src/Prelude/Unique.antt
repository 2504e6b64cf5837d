-- ===== src/Prelude/Unique.antt =====
-- `[...new Set(xs)]`: the first of each item, in order.
use gana_v.Prelude.Tests.{Bool-cases}
use gana_v.Prelude.Lists.{All, any, keep, All-keep, keep_test}
use mathlib.Core.Path.{◌≡◌, refl}
use mathlib.Core.Logic.{inl, inr}
use mathlib.Core.Bool.{Bool, true, not, ◌||◌}
use mathlib.Core.List.{List, [], ◌∷◌}
use native.Mathlib.Omega.{arith}

module _ {ℓ} {A : Type ℓ} (same : A → A → Bool) where
  -- Every later item that is the same as an earlier one goes.
  unfoldable pub unique : List A → List A
  unique [] = []
  unique (x ∷ xs) = x ∷ keep (λ y. not (same y x)) (unique xs)

  -- No two items are the same.
  abbrev pub Differ : List A → Type 0
  Differ [] = Unit
  Differ (x ∷ xs) = All (λ y. not (same y x) ≡ true) xs × Differ xs

  pub Differ-keep : (p : A → Bool) (xs : List A) → Differ xs → Differ (keep p xs)
  Differ-keep p [] d = tt
  Differ-keep p (x ∷ xs) (f, d) = elim (Bool-cases (p x)) [
    | inl e ↦ rw e (All-keep _ p xs f, Differ-keep p xs d)
    | inr e ↦ rw e (Differ-keep p xs d)
  ]

  pub unique-Differ : (xs : List A) → Differ (unique xs)
  unfolding unique
  unique-Differ [] = tt
  unique-Differ (x ∷ xs) = (
    keep_test (λ y. not (same y x)) (unique xs),
    Differ-keep (λ y. not (same y x)) (unique xs) (unique-Differ xs),
  )

  -- A test that does not tell same items apart finds an item in the list or in neither.
  module _ (p : A → Bool) (respects : (x y : A) → same x y ≡ true → p x ≡ p y) where
    found_in_rest :
        (x : A) (ys : List A) → (p x || any p (keep (λ y. not (same y x)) ys)) ≡ (p x || any p ys)
    found_in_rest x [] = refl
    found_in_rest x (y ∷ ys) = elim (Bool-cases (same y x)) [
      | inl e ↦ rw e (ground (arith, found_in_rest x ys, respects y x e))
      | inr e ↦ rw e (ground (arith, found_in_rest x ys))
    ]

    pub any-unique : (xs : List A) → any p (unique xs) ≡ any p xs
    unfolding unique
    any-unique [] = refl
    any-unique (x ∷ xs) = ground (arith, found_in_rest x (unique xs), any-unique xs)
