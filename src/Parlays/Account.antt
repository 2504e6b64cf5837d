-- ===== src/Parlays/Account.antt =====
-- Every candidate is selected or rejected (packages/parlay-engine/src/index.ts).
use mathlib.Core.Path.{subst, subst⁻¹}
use mathlib.Core.List.{Perm, perm_middle, perm_append_singleton, append_assoc, append-nil}
use mathlib.Core.List.Perm
use gana_v.Prelude.{
  ℕ, ◌≤◌, refl, sym, ap, ◌∙◌, List, [], ◌∷◌, ◌++◌, map, length, leb, Bool-cases, inl, inr, arith,
}
use gana_v.Prelude.Texts.{str_eq}
use gana_v.Prelude.Unique.{Differ}
use gana_v.Numbers.{Numbers}
use gana_v.Parlays.Candidate.{Candidate, Rank}
use gana_v.Parlays.Selection.{
  RejectionReason, Selecting, selection_key, has, reject, select, consider, consider_all,
  nothing_selected, leg_limit, duplicate_prediction, duplicate_selection,
}
use gana_v.Parlays.Legs.{turned_down, candidates_of, map-snoc, consider_all-IsSelection}

module _ (N : Numbers) where
  abbrev pub settled_so_far : Selecting N → List (Candidate N)
  settled_so_far s = s.selected ++ turned_down N s.rejected

  snoc-Perm : (xs : List (Candidate N)) (c : Candidate N) → Perm (c ∷ xs) (xs ++ c ∷ [])
  snoc-Perm xs c = Perm.symm (perm_append_singleton c xs)

  select-Perm :
      (c : Candidate N) (s : Selecting N)
      → Perm (settled_so_far (select N c s)) (settled_so_far s ++ c ∷ [])
  select-Perm c s =
      subst⁻¹ (λ z. Perm z (settled_so_far s ++ c ∷ []))
        (append_assoc s.selected (c ∷ []) (turned_down N s.rejected))
        (Perm.trans (perm_middle s.selected (turned_down N s.rejected))
          (snoc-Perm (settled_so_far s) c))

  reject-Perm :
      (reason : RejectionReason) (c : Candidate N) (s : Selecting N)
      → Perm (settled_so_far (reject N reason c s)) (settled_so_far s ++ c ∷ [])
  reject-Perm reason c s =
      subst (λ z. Perm z (settled_so_far s ++ c ∷ []))
        (append_assoc s.selected (turned_down N s.rejected) (c ∷ [])
          ∙ ap (λ z. s.selected ++ z)
              (sym (
                map-snoc (λ r. r.candidate) s.rejected
                  (record { candidate = c; reason = reason }))))
        (Perm.refl _)

  consider-Perm :
      (max_legs : ℕ) (c : Candidate N) (s : Selecting N)
      → Perm (settled_so_far (consider N max_legs c s)) (settled_so_far s ++ c ∷ [])
  unfolding consider
  consider-Perm max_legs c s = elim (Bool-cases (leb max_legs (length s.selected))) [
    | inl l ↦ rw l (reject-Perm leg_limit c s)
    | inr l ↦ elim (Bool-cases (has N s.prediction_ids c.prediction_id)) [
      | inl p ↦ rw (l, p) (reject-Perm duplicate_prediction c s)
      | inr p ↦ elim (Bool-cases (has N s.selection_keys (selection_key N c))) [
        | inl k ↦ rw (l, p, k) (reject-Perm duplicate_selection c s)
        | inr k ↦ rw (l, p, k) (select-Perm c s)
      ]
    ]
  ]

  consider_all-Perm :
      (max_legs : ℕ) (rs : List (Rank N)) (s : Selecting N)
      → Perm
          (settled_so_far (consider_all N max_legs rs s))
          (settled_so_far s ++ candidates_of N rs)
  unfolding consider_all
  consider_all-Perm max_legs [] s =
      subst⁻¹ (λ z. Perm (settled_so_far s) z) (append-nil (settled_so_far s)) (Perm.refl _)
  consider_all-Perm max_legs (r ∷ rs) s =
      let t = consider N max_legs r.candidate s in
      Perm.trans (consider_all-Perm max_legs rs t) (
        subst (λ z. Perm (settled_so_far t ++ candidates_of N rs) z)
          (append_assoc (settled_so_far s) (r.candidate ∷ []) (candidates_of N rs))
          (Perm.append_right (candidates_of N rs) (consider-Perm max_legs r.candidate s)))

  -- The loop over the ranked candidates selects at most as many legs as the limit, no prediction
  -- twice and no selection (fixture, market and outcome) twice, and it loses and invents no
  -- candidate: those that it selects and those that it rejects are, up to order, the candidates
  -- that it was given.
  pub selection-legs :
      (max_legs : ℕ) (rs : List (Rank N))
      → (length (consider_all N max_legs rs (nothing_selected N)).selected ≤ max_legs)
        × Differ str_eq
            (map (λ c. c.prediction_id) (consider_all N max_legs rs (nothing_selected N)).selected)
        × Differ str_eq
            (map (selection_key N) (consider_all N max_legs rs (nothing_selected N)).selected)
        × Perm
            ((consider_all N max_legs rs (nothing_selected N)).selected
              ++ turned_down N (consider_all N max_legs rs (nothing_selected N)).rejected)
            (candidates_of N rs)
  selection-legs max_legs rs =
      let i = consider_all-IsSelection N max_legs rs (nothing_selected N) (record {
        within = omega arith;
        ids = refl;
        keys = refl;
        ids_differ = tt;
        keys_differ = tt;
      }) in
      (
        i.within,
        subst (Differ str_eq) i.ids i.ids_differ,
        subst (Differ str_eq) i.keys i.keys_differ,
        consider_all-Perm max_legs rs (nothing_selected N),
      )
