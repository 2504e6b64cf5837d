-- ===== src/Prelude/Sort.antt =====
-- `[...items].sort(compare)`: the stable sort of the language, as insertion from the right.
-- `before x y` stands for `compare(x, y) < 0`.
use mathlib.Core.Path.{◌≡◌, refl, subst}
use mathlib.Core.Option.{some}
use mathlib.Core.Logic.{inl, inr}
use mathlib.Core.Bool.{Bool, true, false}
use mathlib.Core.List.{List, [], ◌∷◌, Perm}
use mathlib.Core.List.Perm
use gana_v.Prelude.Tests.{if◌then◌else◌, Bool-cases}
use gana_v.Prelude.Lists.{All, head}

module _ {ℓ} {A : Type ℓ} (before : A → A → Bool) where
  abbrev pub insert_sorted : A → List A → List A
  insert_sorted x [] = x ∷ []
  insert_sorted x (y ∷ ys) = if before y x then y ∷ insert_sorted x ys else x ∷ y ∷ ys

  unfoldable pub sort : List A → List A
  sort [] = []
  sort (x ∷ xs) = insert_sorted x (sort xs)

  -- No item comes strictly before one that stands to its left.
  abbrev pub IsSorted : List A → Type 0
  IsSorted [] = Unit
  IsSorted (x ∷ xs) = All (λ y. before y x ≡ false) xs × IsSorted xs

  pub insert_sorted-perm : (x : A) (ys : List A) → Perm (insert_sorted x ys) (x ∷ ys)
  insert_sorted-perm x [] = Perm.refl _
  insert_sorted-perm x (y ∷ ys) = elim (Bool-cases (before y x)) [
    | inl e ↦ rw e (Perm.trans (Perm.cons y (insert_sorted-perm x ys)) (Perm.swap _ _ _))
    | inr e ↦ rw e (Perm.refl _)
  ]

  pub sort-perm : (xs : List A) → Perm (sort xs) xs
  unfolding sort
  sort-perm [] = Perm.refl _
  sort-perm (x ∷ xs) = Perm.trans (insert_sorted-perm x (sort xs)) (Perm.cons x (sort-perm xs))

  pub All-insert_sorted {κ} :
      (P : A → Type κ) (x : A) (ys : List A) → P x → All P ys → All P (insert_sorted x ys)
  All-insert_sorted P x [] p h = (p, tt)
  All-insert_sorted P x (y ∷ ys) p (q, h) = elim (Bool-cases (before y x)) [
    | inl e ↦ rw e (q, All-insert_sorted P x ys p h)
    | inr e ↦ rw e (p, (q, h))
  ]

  pub All-sort {κ} : (P : A → Type κ) (xs : List A) → All P xs → All P (sort xs)
  unfolding sort
  All-sort P [] h = tt
  All-sort P (x ∷ xs) (p, h) = All-insert_sorted P x (sort xs) p (All-sort P xs h)

  All-of_insert_sorted {κ} :
      (P : A → Type κ) (x : A) (ys : List A) → All P (insert_sorted x ys) → P x × All P ys
  All-of_insert_sorted P x [] h = h
  All-of_insert_sorted P x (y ∷ ys) h = elim (Bool-cases (before y x)) [
    | inl e ↦ let (q, k) = rw e at h in let (p, r) = All-of_insert_sorted P x ys k in (p, (q, r))
    | inr e ↦ rw e at h
  ]

  pub All-of_sort {κ} : (P : A → Type κ) (xs : List A) → All P (sort xs) → All P xs
  unfolding sort
  All-of_sort P [] h = tt
  All-of_sort P (x ∷ xs) h =
      let (p, k) = All-of_insert_sorted P x (sort xs) h in (p, All-of_sort P xs k)

  pub sort-nil : (xs : List A) → sort xs ≡ [] → xs ≡ []
  unfolding sort
  sort-nil [] e = refl
  sort-nil (x ∷ xs) e = absurd (insert-ne-nil x (sort xs) e)
    where
      insert-ne-nil : (x : A) (ys : List A) → insert_sorted x ys ≡ [] → ⊥
      insert-ne-nil x [] e = cc
      insert-ne-nil x (y ∷ ys) e = elim (Bool-cases (before y x)) [
        | inl b ↦ let f = rw b at e in cc
        | inr b ↦ let f = rw b at e in cc
      ]

-- What the comparison has to satisfy: it is a strict order whose ties are an equivalence.
pub record IsOrder {ℓ} {A : Type ℓ} (before : A → A → Bool) : Type ℓ where
  pub asym : (x y : A) → before x y ≡ true → before y x ≡ false
  pub trans : (x y z : A) → before y x ≡ false → before z y ≡ false → before z x ≡ false

module _ {ℓ} {A : Type ℓ} (before : A → A → Bool) (o : IsOrder before) where
  later :
      (x y : A) (ys : List A)
      → before y x ≡ false
      → All (λ z. before z y ≡ false) ys
      → All (λ z. before z x ≡ false) ys
  later x y [] e h = tt
  later x y (z ∷ zs) e (p, h) = (o.trans x y z e p, later x y zs e h)

  pub insert_sorted-IsSorted :
      (x : A) (ys : List A) → IsSorted before ys → IsSorted before (insert_sorted before x ys)
  insert_sorted-IsSorted x [] s = (tt, tt)
  insert_sorted-IsSorted x (y ∷ ys) (h, s) = elim (Bool-cases (before y x)) [
    | inl e ↦ rw e (
      All-insert_sorted before (λ z. before z y ≡ false) x ys (o.asym y x e) h,
      insert_sorted-IsSorted x ys s,
    )
    | inr e ↦ rw e ((e, later x y ys e h), (h, s))
  ]

  pub sort-IsSorted : (xs : List A) → IsSorted before (sort before xs)
  unfolding sort
  sort-IsSorted [] = tt
  sort-IsSorted (x ∷ xs) = insert_sorted-IsSorted x (sort before xs) (sort-IsSorted xs)

  head_first :
      (ys : List A) (m : A)
      → IsSorted before ys
      → head ys ≡ some m
      → All (λ y. before y m ≡ false) ys
  head_first [] m s e = tt
  head_first (y ∷ ys) m (h, s) e =
      let same : y ≡ m = cc in
      subst (λ z. All (λ y. before y z ≡ false) (y ∷ ys)) same (irrefl y, h)
    where
      irrefl : (z : A) → before z z ≡ false
      irrefl z = elim (Bool-cases (before z z)) [ inl t ↦ o.asym z z t | inr f ↦ f ]

  -- No item comes before the head of the sorted list.
  pub head-sort-first :
      (xs : List A) (m : A) → head (sort before xs) ≡ some m → All (λ y. before y m ≡ false) xs
  head-sort-first xs m e =
      All-of_sort before (λ y. before y m ≡ false) xs
        (head_first (sort before xs) m (sort-IsSorted xs) e)
