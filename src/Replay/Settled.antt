-- ===== src/Replay/Settled.antt =====
-- How the score card counts the tickets of a replay (packages/validation-engine/src/index.ts).
use mathlib.Core.Path.{subst}
use gana_v.Prelude.{
  ◌+◌, ◌≡◌, refl, Bool, true, false, not, Option, none, some, List, [], ◌∷◌, arith, length, keep,
  All, Bool-cases, inl, inr, get_or,
}
use gana_v.Numbers.{Numbers}
use gana_v.Domain.Common.{IsoDate, done, bind-done, done-eq}
use gana_v.Domain.Prediction.{Prediction, settle_prediction, as_settled, as_voided}
use gana_v.Replay.Atomic.{
  MarketOutcome, Logarithms, AtomicTicket, SettledAtomic, ungraded, graded_ticket, is_correct,
  settle_atomic_ticket,
}
use gana_v.Replay.Scorecard.{is_atomic_won, is_atomic_lost, is_atomic_voided, graded_of}
use gana_v.Replay.Run.{ticket_outcome, settle_with, settle_atomics}

module _ (N : Numbers) where
  -- A ticket is graded exactly where it is not void, and a graded one is correct exactly where it
  -- won.
  abbrev pub IsGraded : SettledAtomic N → Type 0
  IsGraded a = (a.graded ≡ not (is_atomic_voided a.verdict)) × (a.correct ≡ is_atomic_won a.verdict)

  module _ (L : Logarithms N) where
    settle_with-IsGraded :
        (o : Option MarketOutcome) (t : AtomicTicket N) (at : Option IsoDate) (now : IsoDate)
        (a : SettledAtomic N)
        → settle_with N L o t at now ≡ done a
        → IsGraded a
    unfolding settle_atomic_ticket
    settle_with-IsGraded none t at now a e =
        subst IsGraded (done-eq {x = ungraded N t t.prediction} e) (refl, refl)
    settle_with-IsGraded (some o) t at now a e = elim (Bool-cases (get_or o.voided false)) [
      | inl v ↦
          let (p, q, w) =
            bind-done (settle_prediction N t.prediction as_voided (get_or at now))
              (λ p. done (ungraded N t p)) a (rw v at e) in
          subst IsGraded (done-eq {x = ungraded N t p} w) (refl, refl)
      | inr v ↦
          let (p, q, w) =
            bind-done (settle_prediction N t.prediction as_settled (get_or at now))
              (λ p. done (graded_ticket N L t p (is_correct N t o))) a (rw v at e) in
          subst IsGraded (done-eq {x = graded_ticket N L t p (is_correct N t o)} w)
            (either (is_correct N t o) p)
    ]
      where
        either : (b : Bool) (p : Prediction N IsoDate) → IsGraded (graded_ticket N L t p b)
        either true p = (refl, refl)
        either false p = (refl, refl)

    pub settle_atomics-IsGraded :
        (outcomes : List MarketOutcome) (ts : List (AtomicTicket N)) (at : Option IsoDate)
        (now : IsoDate) (settled : List (SettledAtomic N))
        → settle_atomics N L outcomes ts at now ≡ done settled
        → All IsGraded settled × (length settled ≡ length ts)
    unfolding settle_atomics
    settle_atomics-IsGraded outcomes [] at now settled e =
        subst (λ x. All IsGraded x × (length x ≡ 0)) (done-eq e) (tt, refl)
    settle_atomics-IsGraded outcomes (t ∷ ts) at now settled e =
        let (a, p, q) =
          bind-done (settle_with N L (ticket_outcome N L outcomes t) t at now) _ settled e in
        let (rest, r, s) = bind-done (settle_atomics N L outcomes ts at now) _ settled q in
        let (g, l) = settle_atomics-IsGraded outcomes ts at now rest r in
        subst (λ x. All IsGraded x × (length x ≡ length (t ∷ ts))) (done-eq s)
          ((settle_with-IsGraded _ t at now a p, g), omega (arith, l))

  -- Of graded tickets, each one is either won or lost, and the others are void.
  pub count-IsGraded :
      (settled : List (SettledAtomic N))
      → All IsGraded settled
      → (length settled
          ≡ length (graded_of N settled) + length (keep (λ a. is_atomic_voided a.verdict) settled))
        × (length (graded_of N settled)
            ≡ length (keep (λ a. is_atomic_won a.verdict) (graded_of N settled))
              + length (keep (λ a. is_atomic_lost a.verdict) (graded_of N settled)))
  count-IsGraded [] h = (refl, refl)
  count-IsGraded (a ∷ rest) ((g, c), h) =
      let (x, y) = count-IsGraded rest h in (ground (arith, x), ground (arith, y))
