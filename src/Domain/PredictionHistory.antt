-- ===== src/Domain/PredictionHistory.antt =====
-- What a prediction goes through (packages/domain-core/src/entities/prediction.ts).
use mathlib.Core.Path.{subst}
use gana_v.Prelude.{
  ◌≡◌, refl, Option, none, Bool, true, false, not, arith, is_some, Bool-cases, inl, inr,
}
use gana_v.Numbers.{Numbers, integer}
use gana_v.Domain.Common.{IsoDate, done, done-eq}
use gana_v.Domain.Prediction.{
  PredictionStatus, settled, voided, PredictionSettlement, Prediction, is_draft, is_published,
  out_of_range, create_prediction, publish_prediction, settle_prediction,
}

abbrev pub is_final : PredictionStatus → Bool
is_final settled = true
is_final voided = true
is_final _ = false

module _ (N : Numbers) where
  -- The predictions that come from drafts that were created without the times of later steps.
  pub data Made : Prediction N IsoDate → Type 0 where
    created :
        {p : Prediction N IsoDate} (input : Prediction N (Option IsoDate)) (now : IsoDate)
        → is_draft input.status ≡ true
        → input.published_at ≡ none
        → input.settled_at ≡ none
        → create_prediction N input now ≡ done p
        → Made p
    published :
        {p q : Prediction N IsoDate} (at : IsoDate)
        → Made p
        → publish_prediction N p at ≡ done q
        → Made q
    settles :
        {p q : Prediction N IsoDate} (status : PredictionSettlement) (at : IsoDate)
        → Made p
        → settle_prediction N p status at ≡ done q
        → Made q

  abbrev pub IsSound : Prediction N IsoDate → Type 0
  IsSound p =
      (is_some p.published_at ≡ not (is_draft p.status))
      × (is_some p.settled_at ≡ is_final p.status)
      × (N.ltb p.confidence (integer N 0) ≡ false)
      × (N.ltb (integer N 1) p.confidence ≡ false)

  -- A prediction that `createPrediction` makes as a draft without times of publication and
  -- settlement, and that is then published and settled or voided by the operations, has at each step
  -- a time of publication exactly when it is no draft any more, and a time of settlement exactly
  -- when it is settled or voided. Its confidence is not below 0 and not above 1. Nothing is said of
  -- predictions that are created as published ones.
  pub Made-IsSound : {p : Prediction N IsoDate} → Made p → IsSound p
  unfolding create_prediction publish_prediction settle_prediction
  Made-IsSound (created {p} input now d n m e) =
      elim (Bool-cases (out_of_range N input.confidence)) [
        | inl t ↦ absurd (let f = rw t at e in ground arith)
        | inr t ↦
            subst IsSound (done-eq {y = p} (rw t at e))
              (ground (arith, n), ground (arith, m), ground arith, ground arith)
      ]
  Made-IsSound (published {p} {q} at h e) = elim (Bool-cases (is_draft p.status)) [
    | inl t ↦
        let (a, b, c, d) = Made-IsSound h in
        subst IsSound (done-eq {y = q} (rw t at e)) (refl, ground arith, c, d)
    | inr t ↦ absurd (let f = rw t at e in ground arith)
  ]
  Made-IsSound (settles {p} {q} status at h e) = elim (Bool-cases (is_published p.status)) [
    | inl t ↦
        let (a, b, c, d) = Made-IsSound h in
        subst IsSound (done-eq {y = q} (rw t at e)) (ground arith, ground arith, c, d)
    | inr t ↦ absurd (let f = rw t at e in ground arith)
  ]
