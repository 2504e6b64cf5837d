-- ===== src/Prelude/Find.antt =====
-- What `find`, `includes` and `at(0)` give: an item of the list that passes the test.
use mathlib.Core.Path.{◌≡◌, refl, sym, subst}
use mathlib.Core.Bool.{Bool, true, false}
use mathlib.Core.Logic.{inl, inr}
use mathlib.Core.List.{Memᴰ}
use mathlib.Core.List.{List, [], ◌∷◌}
use mathlib.Core.Option.{none, some}
use gana_v.Prelude.Tests.{Bool-cases, some-eq}
use gana_v.Prelude.Lists.{All, first, head}

module _ {ℓ} {A : Type ℓ} where
  pub first-mem : (p : A → Bool) (xs : List A) (x : A) → first p xs ≡ some x → Memᴰ x xs
  first-mem p [] x e = cc
  first-mem p (y ∷ ys) x e = elim (Bool-cases (p y)) [
    | inl t ↦ Memᴰ.head (sym (some-eq (rw t at e)))
    | inr f ↦ Memᴰ.tail (first-mem p ys x (rw f at e))
  ]

  pub first_passes : (p : A → Bool) (xs : List A) (x : A) → first p xs ≡ some x → p x ≡ true
  first_passes p [] x e = cc
  first_passes p (y ∷ ys) x e = elim (Bool-cases (p y)) [
    | inl t ↦ let q : y ≡ x = some-eq (rw t at e) in subst (λ z. p z ≡ true) q t
    | inr f ↦ first_passes p ys x (rw f at e)
  ]

  pub first-none : (p : A → Bool) (xs : List A) → first p xs ≡ none → All (λ y. p y ≡ false) xs
  first-none p [] e = tt
  first-none p (y ∷ ys) e = elim (Bool-cases (p y)) [
    | inl t ↦ let q = rw t at e in cc
    | inr f ↦ (f, first-none p ys (rw f at e))
  ]

  pub head-mem : (xs : List A) (x : A) → head xs ≡ some x → Memᴰ x xs
  head-mem [] x e = cc
  head-mem (y ∷ ys) x e = Memᴰ.head (sym (some-eq e))

  pub All-mem {κ} : (P : A → Type κ) (xs : List A) (x : A) → All P xs → Memᴰ x xs → P x
  All-mem P [] x h m = elim m [ ]
  All-mem P (y ∷ ys) x (p, h) (Memᴰ.head e) = subst P (sym e) p
  All-mem P (y ∷ ys) x (p, h) (Memᴰ.tail i) = All-mem P ys x h i

  -- What holds of each item that is in the list holds of all.
  pub all_of_mem {κ} : (P : A → Type κ) (xs : List A) → ((x : A) → Memᴰ x xs → P x) → All P xs
  all_of_mem P [] f = tt
  all_of_mem P (x ∷ xs) f = (f x (Memᴰ.head refl), all_of_mem P xs (λ y i. f y (Memᴰ.tail i)))
