-- ===== src/Prelude/Lists.antt =====
-- Lists measured by native numbers, with Boolean searches (`filter`, `some`, `every`, `find` of
-- arrays) and a predicate that holds of every item.
use Prim.Native.Nat.{ℕ, zero, suc, ◌+◌, ◌≤◌}
use mathlib.Core.Path.{◌≡◌, refl, sym, ◌∙◌, subst}
use mathlib.Core.Bool.{Bool, true, false, false≢true, ◌&&◌, ◌||◌}
use mathlib.Core.Logic.{inl, inr}
use mathlib.Core.List.{List, [], ◌∷◌, ◌++◌}
use mathlib.Core.Option.{Option, none, some}
use native.Mathlib.Omega.{arith}
use gana_v.Prelude.Tests.{if◌then◌else◌, Bool-cases}

module _ {ℓ κ} {A : Type ℓ} (P : A → Type κ) where
  abbrev pub All : List A → Type κ
  All [] = Unit
  All (x ∷ xs) = P x × All xs

module _ {ℓ} {A : Type ℓ} where
  abbrev pub length : List A → ℕ
  length [] = 0
  length (x ∷ xs) = suc (length xs)

  -- `filter`
  abbrev pub keep : (A → Bool) → List A → List A
  keep p [] = []
  keep p (x ∷ xs) = if p x then x ∷ keep p xs else keep p xs

  -- `some` and `every`
  abbrev pub any : (A → Bool) → List A → Bool
  any p [] = false
  any p (x ∷ xs) = p x || any p xs

  abbrev pub all : (A → Bool) → List A → Bool
  all p [] = true
  all p (x ∷ xs) = p x && all p xs

  -- `find`
  abbrev pub first : (A → Bool) → List A → Option A
  first p [] = none
  first p (x ∷ xs) = if p x then some x else first p xs

  abbrev pub head : List A → Option A
  head [] = none
  head (x ∷ xs) = some x

  abbrev pub take : ℕ → List A → List A
  take zero xs = []
  take (suc n) [] = []
  take (suc n) (x ∷ xs) = x ∷ take n xs

  -- `at(-1)` and `slice(0, -1)`
  abbrev pub last : List A → Option A
  last [] = none
  last (x ∷ []) = some x
  last (x ∷ y ∷ ys) = last (y ∷ ys)

  abbrev pub all_but_last : List A → List A
  all_but_last [] = []
  all_but_last (x ∷ []) = []
  all_but_last (x ∷ y ∷ ys) = x ∷ all_but_last (y ∷ ys)

  pub head-none : (xs : List A) → head xs ≡ none → xs ≡ []
  head-none [] e = cc
  head-none (x ∷ xs) e = cc

  pub keep_test : (p : A → Bool) (xs : List A) → All (λ x. p x ≡ true) (keep p xs)
  keep_test p [] = tt
  keep_test p (x ∷ xs) = elim (Bool-cases (p x)) [
    | inl e ↦ rw e (e, keep_test p xs)
    | inr e ↦ rw e (keep_test p xs)
  ]

  pub keep-nil : (p : A → Bool) (xs : List A) → keep p xs ≡ [] → All (λ x. p x ≡ false) xs
  keep-nil p [] e = tt
  keep-nil p (x ∷ xs) e = elim (Bool-cases (p x)) [
    | inl t ↦ absurd (let f = rw t at e in cc)
    | inr t ↦ (t, keep-nil p xs (rw t at e))
  ]

  pub length-append : (xs ys : List A) → length (xs ++ ys) ≡ length xs + length ys
  length-append [] ys = omega arith
  length-append (x ∷ xs) ys = omega (arith, length-append xs ys)

  pub any-append : (p : A → Bool) (xs ys : List A) → any p (xs ++ ys) ≡ (any p xs || any p ys)
  any-append p [] ys = refl
  any-append p (x ∷ xs) ys = ground (arith, any-append p xs ys)

  pub length-keep-le : (p : A → Bool) (xs : List A) → length (keep p xs) ≤ length xs
  length-keep-le p [] = omega arith
  length-keep-le p (x ∷ xs) = ground (arith, length-keep-le p xs)

module _ {ℓ κ} {A : Type ℓ} (P : A → Type κ) where
  -- Every item satisfies `P` and the test.
  abbrev pub Kept : (A → Bool) → List A → Type κ
  Kept p [] = Unit
  Kept p (x ∷ xs) = (P x × (p x ≡ true)) × Kept p xs

  -- Every item that passes the test satisfies `P`.
  abbrev pub Passing : (A → Bool) → List A → Type κ
  Passing p [] = Unit
  Passing p (x ∷ xs) = (p x ≡ true → P x) × Passing p xs

  pub All-append : (xs ys : List A) → All P xs → All P ys → All P (xs ++ ys)
  All-append [] ys h k = k
  All-append (x ∷ xs) ys (p, h) k = (p, All-append xs ys h k)

  pub All-head : (xs : List A) (x : A) → All P xs → head xs ≡ some x → P x
  All-head [] x h e = ground arith
  All-head (y ∷ ys) x (p, h) e = let q : y ≡ x = cc in subst P q p

  pub All-keep : (p : A → Bool) (xs : List A) → All P xs → All P (keep p xs)
  All-keep p [] h = tt
  All-keep p (x ∷ xs) (h, hs) = elim (Bool-cases (p x)) [
    | inl e ↦ rw e (h, All-keep p xs hs)
    | inr e ↦ rw e (All-keep p xs hs)
  ]

  -- What holds of all that is kept holds of all that passes the test.
  pub All-of_keep : (p : A → Bool) (xs : List A) → All P (keep p xs) → Passing p xs
  All-of_keep p [] h = tt
  All-of_keep p (x ∷ xs) h = elim (Bool-cases (p x)) [
    | inl e ↦ let (q, k) = rw e at h in ((λ _. q), All-of_keep p xs k)
    | inr e ↦ ((λ t. absurd (false≢true (sym e ∙ t))), All-of_keep p xs (rw e at h))
  ]

  -- What is kept passed the test.
  pub All-keep_test : (p : A → Bool) (xs : List A) → All P xs → Kept p (keep p xs)
  All-keep_test p [] h = tt
  All-keep_test p (x ∷ xs) (h, hs) = elim (Bool-cases (p x)) [
    | inl e ↦ rw e ((h, e), All-keep_test p xs hs)
    | inr e ↦ rw e (All-keep_test p xs hs)
  ]

module _ {ℓ κ μ} {A : Type ℓ} (P : A → Type κ) (Q : A → Type μ) where
  pub All-map : ((x : A) → P x → Q x) → (xs : List A) → All P xs → All Q xs
  All-map f [] h = tt
  All-map f (x ∷ xs) (p, h) = (f x p, All-map f xs h)

  pub All-map_with {ν} :
      {R : A → Type ν}
      → ((x : A) → R x → P x → Q x)
      → (xs : List A) → All R xs
      → All P xs
      → All Q xs
  All-map_with f [] r h = tt
  All-map_with f (x ∷ xs) (r, rs) (p, h) = (f x r p, All-map_with f xs rs h)

  pub Kept-All :
      (p : A → Bool) → ((x : A) → P x → p x ≡ true → Q x) → (xs : List A) → Kept P p xs → All Q xs
  Kept-All p f [] h = tt
  Kept-All p f (x ∷ xs) ((h, e), hs) = (f x h e, Kept-All p f xs hs)
