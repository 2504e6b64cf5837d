-- ===== src/Prelude/Choose.antt =====
-- `xs.filter(test).sort(compare).at(0)`: the first of the items that pass a test.
use mathlib.Core.Path.{◌≡◌, refl}
use mathlib.Core.Option.{none, some}
use mathlib.Core.Bool.{Bool, true, false, ◌&&◌}
use mathlib.Core.List.{List, [], ◌∷◌}
use gana_v.Prelude.Lists.{
  All, Passing, All-of_keep, All-keep, All-head, keep, keep_test, keep-nil, head, head-none,
}
use gana_v.Prelude.Sort.{sort, IsOrder, All-sort, head-sort-first, sort-nil}

module _ {A : Type 0} (before : A → A → Bool) (test : A → Bool) where
  -- No item that passes the test comes before `m`.
  abbrev pub IsFirst : List A → A → Type 0
  IsFirst xs m = All (λ x. (test x && before x m) ≡ false) xs

  IsFirst-Passing : (xs : List A) (m : A) → Passing (λ x. before x m ≡ false) test xs → IsFirst xs m
  IsFirst-Passing [] m h = tt
  IsFirst-Passing (x ∷ xs) m (h, hs) = (both (test x) (before x m) h, IsFirst-Passing xs m hs)
    where
      both : (a b : Bool) → (a ≡ true → b ≡ false) → (a && b) ≡ false
      both true b h = h refl
      both false b h = refl

  -- The head of the sorted items passes the test, and is the first of those that do.
  pub chosen-IsFirst :
      (xs : List A) (m : A)
      → IsOrder before
      → head (sort before (keep test xs)) ≡ some m
      → (test m ≡ true) × IsFirst xs m
  chosen-IsFirst xs m o e = (
    All-head (λ x. test x ≡ true) _ m (All-sort before (λ x. test x ≡ true) _ (keep_test test xs))
        e,
    IsFirst-Passing xs m
        (All-of_keep (λ x. before x m ≡ false) test xs (head-sort-first before o _ m e)),
  )

  -- Where there is none, no item passes the test.
  pub chosen-none :
      (xs : List A) → head (sort before (keep test xs)) ≡ none → All (λ x. test x ≡ false) xs
  chosen-none xs e = keep-nil test xs (sort-nil before _ (head-none _ e))

  -- What holds of every item holds of the chosen one.
  pub All-chosen {κ} :
      (P : A → Type κ) (xs : List A) (m : A)
      → All P xs
      → head (sort before (keep test xs)) ≡ some m
      → P m
  All-chosen P xs m h e = All-head P _ m (All-sort before P _ (All-keep P test xs h)) e
