-- ===== src/Parlays/Built.antt =====
-- What a parlay is that was built from candidates (packages/parlay-engine/src/index.ts).
use mathlib.Core.Path.{subst, subst⁻¹, ap₂}
use mathlib.Core.List.{Perm}
use mathlib.Core.List.Perm
use gana_v.Prelude.{
  ℕ, ◌≤◌, ◌≡◌, refl, sym, ap, ◌∙◌, true, not, ◌&&◌, Option, List, [], ◌∷◌, ◌++◌, arith, map, length,
  ltb, leb, ◌==◌, Bool-cases, inl, inr, if◌then◌else◌, All,
}
use gana_v.Prelude.Texts.{str_eq, join}
use gana_v.Prelude.Sort.{sort, sort-perm}
use gana_v.Prelude.Unique.{Differ}
use gana_v.Numbers.{Numbers}
use gana_v.Domain.Common.{IsoDate, done, bind-done, done-eq}
use gana_v.Domain.Parlay.{Parlay, ParlayLeg, ParlayStatus, LegStatus, create_parlay}
use gana_v.Parlays.Candidate.{
  Candidate, Rank, rank_of, score_atomic_candidate, validate_atomic_candidate, score_all,
  ranked_before,
}
use gana_v.Parlays.Selection.{Rejection, market_text, outcome_text, consider_all, nothing_selected}
use gana_v.Parlays.Legs.{turned_down, candidates_of}
use gana_v.Parlays.Account.{selection-legs}
use gana_v.Parlays.Correlation.{calculate_parlay_correlation}
use gana_v.Parlays.Build.{
  BuildInput, BuildResult, min_legs_of, max_legs_of, max_correlation_of, to_leg, build_reasons,
  scorecard_of, parlay_input, build_selected, build_parlay_from_candidates,
}

module _ (N : Numbers) where
  score-candidate :
      (c : Candidate N) (r : Rank N) → score_atomic_candidate N c ≡ done r → r.candidate ≡ c
  unfolding score_atomic_candidate
  score-candidate c r e =
      let (u, v, w) = bind-done (validate_atomic_candidate N c) (λ _. done (rank_of N c)) r e in
      sym (ap (λ x. x.candidate) (done-eq w))

  score_all-candidates :
      (cs : List (Candidate N)) (rs : List (Rank N))
      → score_all N cs ≡ done rs
      → candidates_of N rs ≡ cs
  unfolding score_all
  score_all-candidates [] rs e = sym (ap (candidates_of N) (done-eq e))
  score_all-candidates (c ∷ cs) rs e =
      let (r, p, q) = bind-done (score_atomic_candidate N c) _ rs e in
      let (ss, s, t) = bind-done (score_all N cs) _ rs q in
      sym (ap (candidates_of N) (done-eq t))
      ∙ (ap (λ x. x ∷ candidates_of N ss) (score-candidate c r p)
          ∙ ap (λ xs. c ∷ xs) (score_all-candidates cs ss s))

  -- One leg for each candidate, in order, with what the candidate is of, and pending.
  pub record AreLegs (legs : List (ParlayLeg N)) (cs : List (Candidate N)) : Type 0 where
    pub predictions : map (λ l. l.prediction_id) legs ≡ map (λ c. c.prediction_id) cs
    pub fixtures : map (λ l. l.fixture_id) legs ≡ map (λ c. c.fixture_id) cs
    pub markets : map (λ l. l.market) legs ≡ map (λ c. market_text c.market) cs
    pub outcomes : map (λ l. l.outcome) legs ≡ map (λ c. outcome_text c.outcome) cs
    pub prices : map (λ l. l.price) legs ≡ map (λ c. c.price) cs
    pub pending : All (λ l. l.status ≡ LegStatus.pending) legs

  to_leg-AreLegs : (cs : List (Candidate N)) → AreLegs (map (to_leg N) cs) cs
  to_leg-AreLegs cs = record {
    predictions = each (λ l. l.prediction_id) (λ c. c.prediction_id) (λ c. refl) cs;
    fixtures = each (λ l. l.fixture_id) (λ c. c.fixture_id) (λ c. refl) cs;
    markets = each (λ l. l.market) (λ c. market_text c.market) (λ c. refl) cs;
    outcomes = each (λ l. l.outcome) (λ c. outcome_text c.outcome) (λ c. refl) cs;
    prices = each (λ l. l.price) (λ c. c.price) (λ c. refl) cs;
    pending = all_pending cs;
  }
    where
      each :
          {B : Type 0}
          → (f : ParlayLeg N → B) (g : Candidate N → B) → ((c : Candidate N) → f (to_leg N c) ≡ g c)
          → (xs : List (Candidate N)) → map f (map (to_leg N) xs) ≡ map g xs
      each f g h [] = refl
      each f g h (x ∷ xs) = ap₂ (λ y ys. y ∷ ys) (h x) (each f g h xs)

      all_pending :
          (xs : List (Candidate N)) → All (λ l. l.status ≡ LegStatus.pending) (map (to_leg N) xs)
      all_pending [] = tt
      all_pending (x ∷ xs) = (refl, all_pending xs)

  -- What the build makes of a selection: the legs, the status and the score card.
  pub record IsBuilt (input : BuildInput N) (r : BuildResult N) : Type 0 where
    pub legs : AreLegs r.parlay.legs r.selected_candidates
    pub some_leg : ltb 0 (length r.selected_candidates) ≡ true
    pub ready :
        (r.parlay.status ≡ (if r.scorecard.ready then ParlayStatus.ready else ParlayStatus.draft))
    pub checks : r.scorecard.ready ≡ (
        leb (min_legs_of N input.policy) (length r.selected_candidates)
        && not (
            N.ltb
              (max_correlation_of N input.policy)
              (calculate_parlay_correlation N r.selected_candidates)))

  reasons-none :
      (input : BuildInput N) (n : ℕ) (correlation : N.Num)
      → (length (build_reasons N input.policy n correlation) == 0) ≡ (
          leb (min_legs_of N input.policy) n
          && not (N.ltb (max_correlation_of N input.policy) correlation))
  unfolding build_reasons
  reasons-none input n correlation = ground arith

  created-fields :
      (input : Parlay N (Option IsoDate)) (now : IsoDate) (p : Parlay N IsoDate)
      → create_parlay N input now ≡ done p
      → (p.legs ≡ input.legs) × (p.status ≡ input.status)
  unfolding create_parlay
  created-fields input now p e = elim (Bool-cases (length input.legs == 0)) [
    | inl t ↦ absurd (let f = rw t at e in ground arith)
    | inr t ↦
        let q = done-eq {y = p} (rw t at e) in
        (sym (ap (λ x. x.legs) q), sym (ap (λ x. x.status) q))
  ]

  build_selected-IsBuilt :
      (input : BuildInput N) (ranked : List (Rank N)) (selected : List (Candidate N))
      (rejected : List (Rejection N)) (now : IsoDate) (r : BuildResult N)
      → build_selected N input ranked selected rejected now ≡ done r
      → (r.selected_candidates ≡ selected) × (r.rejected_candidates ≡ rejected) × IsBuilt input r
  unfolding build_selected scorecard_of
  build_selected-IsBuilt input ranked selected rejected now r e =
      elim (Bool-cases (length selected == 0)) [
        | inl t ↦ absurd (let f = rw t at e in ground arith)
        | inr t ↦
            let card = scorecard_of N input.policy selected in
            let (p, q, w) =
              bind-done (create_parlay N (parlay_input N input selected card) now) _ r
                (rw t at e) in
            let (l, s) = created-fields (parlay_input N input selected card) now p q in
            subst
              (λ x.
                (x.selected_candidates ≡ selected)
                × (x.rejected_candidates ≡ rejected)
                × IsBuilt input x)
              (done-eq w)
              (
                refl,
                refl,
                record {
                  legs = subst⁻¹ (λ ls. AreLegs ls selected) l (to_leg-AreLegs selected);
                  some_leg = ground arith;
                  ready = s;
                  checks =
                      reasons-none input (length selected)
                        (calculate_parlay_correlation N selected);
                },
              )
      ]

  -- A parlay that is built from candidates. It has between one and the limit of legs, one for
  -- each selected candidate, in order, that is pending and has the candidate's prediction,
  -- fixture, market, outcome and price. No two of the selected candidates share a prediction, or
  -- the text of fixture, market and outcome with ":" between; the selected and the rejected candidates are, up to order, the given ones. It is ready exactly
  -- where there are enough legs and their correlation is not above the limit, and a draft
  -- otherwise.
  pub build-parlay :
      (input : BuildInput N) (now : IsoDate) (r : BuildResult N)
      → build_parlay_from_candidates N input now ≡ done r
      → (length r.selected_candidates ≤ max_legs_of N input.policy)
        × Differ str_eq (map (λ c. c.prediction_id) r.selected_candidates)
        × Differ str_eq (
            map
              (λ c.
                join
                  (c.fixture_id ∷ ":" ∷ market_text c.market ∷ ":" ∷ outcome_text c.outcome ∷ []))
              r.selected_candidates)
        × Perm (r.selected_candidates ++ turned_down N r.rejected_candidates) input.candidates
        × IsBuilt input r
  unfolding build_parlay_from_candidates
  build-parlay input now r e =
      let (scored, p, q) = bind-done (score_all N input.candidates) _ r e in
      let ranked = sort (ranked_before N) scored in
      let s = consider_all N (max_legs_of N input.policy) ranked (nothing_selected N) in
      let (a, b, c) = build_selected-IsBuilt input ranked s.selected s.rejected now r q in
      let (w, i, k, t) = selection-legs N (max_legs_of N input.policy) ranked in
      let all : Perm (s.selected ++ turned_down N s.rejected) input.candidates =
        subst (λ cs. Perm (s.selected ++ turned_down N s.rejected) cs)
          (score_all-candidates input.candidates scored p)
          (Perm.trans t (Perm.map (λ x. x.candidate) (sort-perm (ranked_before N) scored))) in
      (
        subst⁻¹ (λ x. length x ≤ max_legs_of N input.policy) a w,
        subst⁻¹ (λ x. Differ str_eq (map (λ c. c.prediction_id) x)) a i,
        subst⁻¹
            (λ x. Differ str_eq (
              map
                (λ c.
                  join
                    (c.fixture_id ∷ ":" ∷ market_text c.market ∷ ":" ∷ outcome_text c.outcome ∷ []))
                x))
            a k,
        rw (a, b) all,
        c,
      )
