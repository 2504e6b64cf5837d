-- ===== src/Storage/Laws.antt =====
-- What the in-memory repositories promise: a save is read back, other ids are left alone, and ids
-- stay distinct.
use mathlib.Core.Path.{subst}
use gana_v.Prelude.{
  Bool, keep, All-keep, All-map_with, String, ◌≡◌, refl, inl, inr, sym, false, none, some, List, [],
  ◌∷◌, arith, if◌then◌else◌, Bool-cases, All,
}
use gana_v.Prelude.Texts.{str_eq, str_eq_iff, str_eq-eq, str_eq_refl}
use gana_v.Storage.{get_by_id, save, delete}

module _ {E : Type 0} (id : E → String) where
  -- No item of the list has the id `k`.
  abbrev pub Fresh : String → List E → Type 0
  Fresh k = All (λ x. str_eq (id x) k ≡ false)

  abbrev pub Distinct : List E → Type 0
  Distinct [] = Unit
  Distinct (x ∷ xs) = Fresh (id x) xs × Distinct xs

  -- The law of a map: a read after a save.
  pub get_by_id-save :
      (e : E) (k : String) (xs : List E)
      → get_by_id id k (save id e xs) ≡ (if str_eq (id e) k then some e else get_by_id id k xs)
  unfolding get_by_id save
  get_by_id-save e k [] = refl
  get_by_id-save e k (x ∷ xs) = ground (
    arith,
    get_by_id-save e k xs,
    str_eq_iff (id e) k,
    str_eq_iff (id x) (id e),
    str_eq_iff (id x) k,
  )

  pub get_by_id-id : (k : String) (xs : List E) (e : E) → get_by_id id k xs ≡ some e → id e ≡ k
  unfolding get_by_id
  get_by_id-id k [] e h = ground arith
  get_by_id-id k (x ∷ xs) e h = ground (arith, str_eq_iff (id x) k, get_by_id-id k xs e)

  pub Fresh-save :
      (e : E) (k : String) (xs : List E)
      → str_eq (id e) k ≡ false
      → Fresh k xs
      → Fresh k (save id e xs)
  unfolding save
  Fresh-save e k [] h f = (h, tt)
  Fresh-save e k (x ∷ xs) h (f, fs) = elim (Bool-cases (str_eq (id x) (id e))) [
    | inl p ↦ rw p (h, fs)
    | inr p ↦ rw p (f, Fresh-save e k xs h fs)
  ]

  pub Distinct-save : (e : E) (xs : List E) → Distinct xs → Distinct (save id e xs)
  unfolding save
  Distinct-save e [] d = (tt, tt)
  Distinct-save e (x ∷ xs) (f, d) = elim (Bool-cases (str_eq (id x) (id e))) [
    | inl p ↦ rw p (rw (str_eq-eq (id x) (id e) p) at f, d)
    | inr p ↦ rw p (Fresh-save e (id x) xs (flip p) f, Distinct-save e xs d)
  ]
    where
      flip : str_eq (id x) (id e) ≡ false → str_eq (id e) (id x) ≡ false
      flip p = ground (arith, str_eq_iff (id x) (id e), str_eq_iff (id e) (id x))

  -- In a list of distinct ids each item is the one that its id reads.
  abbrev pub IsListed : List E → E → Type 0
  IsListed xs x = get_by_id id (id x) xs ≡ some x

  IsListed-cons :
      (x : E) (xs : List E) (y : E)
      → str_eq (id y) (id x) ≡ false
      → IsListed xs y
      → IsListed (x ∷ xs) y
  unfolding get_by_id
  IsListed-cons x xs y f h = ground (arith, str_eq_iff (id x) (id y), str_eq_iff (id y) (id x))

  IsListed-self : (x : E) (xs : List E) → IsListed (x ∷ xs) x
  unfolding get_by_id
  IsListed-self x xs = rw (str_eq_refl (id x))

  pub Distinct-IsListed : (xs : List E) → Distinct xs → All (IsListed xs) xs
  Distinct-IsListed [] d = tt
  Distinct-IsListed (x ∷ xs) (f, d) = (
    IsListed-self x xs,
    All-map_with (IsListed xs) (IsListed (x ∷ xs)) (IsListed-cons x xs) xs f
        (Distinct-IsListed xs d),
  )

  pub Distinct-keep : (p : E → Bool) (xs : List E) → Distinct xs → Distinct (keep p xs)
  Distinct-keep p [] d = tt
  Distinct-keep p (x ∷ xs) (f, d) = elim (Bool-cases (p x)) [
    | inl e ↦ rw e (All-keep _ p xs f, Distinct-keep p xs d)
    | inr e ↦ rw e (Distinct-keep p xs d)
  ]

  -- A save of another id keeps an item listed.
  pub IsListed-save :
      (e x : E) (xs : List E)
      → str_eq (id x) (id e) ≡ false
      → IsListed xs x
      → IsListed (save id e xs) x
  IsListed-save e x xs f h =
      rw (get_by_id-save e (id x) xs)
        (ground (arith, str_eq_iff (id e) (id x), str_eq_iff (id x) (id e)))

  pub All-save : (P : E → Type 0) (e : E) (xs : List E) → P e → All P xs → All P (save id e xs)
  unfolding save
  All-save P e [] p h = (p, tt)
  All-save P e (x ∷ xs) p (q, h) = elim (Bool-cases (str_eq (id x) (id e))) [
    | inl s ↦ rw s (p, h)
    | inr s ↦ rw s (q, All-save P e xs p h)
  ]

  pub All-get_by_id :
      (P : E → Type 0) (k : String) (xs : List E) (e : E)
      → All P xs
      → get_by_id id k xs ≡ some e
      → P e
  unfolding get_by_id
  All-get_by_id P k [] e h g = cc
  All-get_by_id P k (x ∷ xs) e (p, h) g = elim (Bool-cases (str_eq (id x) k)) [
    | inl s ↦ let q : x ≡ e = ground arith in subst P q p
    | inr s ↦ All-get_by_id P k xs e h (ground arith)
  ]

  Fresh-delete : (k j : String) (xs : List E) → Fresh k xs → Fresh k (delete id j xs)
  unfolding delete
  Fresh-delete k j [] f = tt
  Fresh-delete k j (x ∷ xs) (f, fs) = elim (Bool-cases (str_eq (id x) j)) [
    | inl p ↦ rw p fs
    | inr p ↦ rw p (f, Fresh-delete k j xs fs)
  ]

  pub Distinct-delete : (k : String) (xs : List E) → Distinct xs → Distinct (delete id k xs)
  unfolding delete
  Distinct-delete k [] d = tt
  Distinct-delete k (x ∷ xs) (f, d) = elim (Bool-cases (str_eq (id x) k)) [
    | inl p ↦ rw p d
    | inr p ↦ rw p (Fresh-delete (id x) k xs f, Distinct-delete k xs d)
  ]

  pub get_by_id-Fresh : (k : String) (xs : List E) → Fresh k xs → get_by_id id k xs ≡ none
  unfolding get_by_id
  get_by_id-Fresh k [] f = refl
  get_by_id-Fresh k (x ∷ xs) (f, fs) = rw f (get_by_id-Fresh k xs fs)

  -- What is deleted is gone, and every other id reads what it did.
  pub get_by_id-delete :
      (k j : String) (xs : List E)
      → Distinct xs
      → get_by_id id j (delete id k xs) ≡ (if str_eq k j then none else get_by_id id j xs)
  unfolding get_by_id delete
  get_by_id-delete k j [] d = ground arith
  get_by_id-delete k j (x ∷ xs) (f, d) = elim (Bool-cases (str_eq (id x) k)) [
    | inl p ↦
        let e = str_eq-eq (id x) k p in
        let g = get_by_id-Fresh (id x) xs f in
        rw p (elim (Bool-cases (str_eq k j)) [
          | inl q ↦ rw (sym (str_eq-eq k j q), sym e, str_eq_refl (id x)) g
          | inr q ↦ rw (e, q) refl
        ])
    | inr p ↦ rw p (
        ground (
          arith,
          get_by_id-delete k j xs d,
          str_eq_iff (id x) j,
          str_eq_iff (id x) k,
          str_eq_iff k j,
        ))
  ]

  -- A save to distinct ids replaces one item at most: what holds of the new item and of each item
  -- with another id holds of all.
  pub All-save_apart :
      (P : E → Type 0) (e : E) (xs : List E)
      → Distinct xs
      → P e
      → All (λ x. str_eq (id x) (id e) ≡ false → P x) xs
      → All P (save id e xs)
  unfolding save
  All-save_apart P e [] d p h = (p, tt)
  All-save_apart P e (x ∷ xs) (f, d) p (h, hs) = elim (Bool-cases (str_eq (id x) (id e))) [
    | inl s ↦
        let g = subst (λ k. Fresh k xs) (str_eq-eq (id x) (id e) s) f in
        rw s (p, All-map_with (λ y. str_eq (id y) (id e) ≡ false → P y) P (λ y r k. k r) xs g hs)
    | inr s ↦ rw s (h s, All-save_apart P e xs d p hs)
  ]
