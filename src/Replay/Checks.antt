-- ===== src/Replay/Checks.antt =====
-- The verdict and the counts of a replay (packages/validation-engine/src/index.ts).
use mathlib.Core.Path.{subst}
use gana_v.Prelude.{
  ℕ, ◌+◌, ◌≡◌, refl, sym, ap, ◌∙◌, Bool, not, ◌&&◌, List, arith, length, keep, any, all, All, ltb,
  ◌==◌, if◌then◌else◌,
}
use gana_v.Numbers.{Numbers}
use gana_v.Domain.Common.{IsoDate, done, bind-done, done-eq}
use gana_v.Domain.Validation.{
  ValidationStatus, passed, failed, partial, Validation, Verdict, ValidationCheck, verdict_status,
  create_validation, finalize_validation,
}
use gana_v.Replay.Atomic.{Logarithms}
use gana_v.Replay.Scorecard.{ValidationScorecard, build_validation_scorecard}
use gana_v.Replay.Run.{
  ReplayRequest, ReplayResult, settle_atomics, settle_parlays, missing, replay_checks,
  replay_status, pending_validation, replay_validation_run,
}
use gana_v.Replay.Coverage.{all_kept, some_kept, has_outcome, none_missing, length-settle_parlays}
use gana_v.Replay.Settled.{IsGraded, settle_atomics-IsGraded, count-IsGraded}

-- Three tests together: all pass, none does, or some.
abbrev pub together : Bool → Bool → Bool → ValidationStatus
together a b c = if a && b && c then passed else if not a && not b && not c then failed else partial

module _ (N : Numbers) (L : Logarithms N) where
  status-together :
      (n k : ℕ) (card : ValidationScorecard N)
      → verdict_status (replay_status (replay_checks N L n card k))
        ≡ together (n == 0) (ltb 0 card.graded_atomics) (card.graded_parlays == k)
  unfolding replay_status replay_checks
  status-together n k card = ground arith

  finalized_status :
      (v w : Validation IsoDate) (s : Verdict) (checks : List ValidationCheck) (text : _)
      (at : IsoDate)
      → v.status ≡ ValidationStatus.pending
      → finalize_validation v s checks text at ≡ done w
      → w.status ≡ verdict_status s
  unfolding finalize_validation
  finalized_status v w s checks text at p e = sym (ap (λ x. x.status) (done-eq {y = w} (rw p at e)))

  -- What a replay that returns says. Its validation has passed exactly where each ticket has an
  -- outcome with its fixture and market, compared as one text with ":" between, some ticket of the
  -- result is graded and each parlay of the result is finalized; it has failed where none of the
  -- three holds, and is partial otherwise.
  -- The result has as many tickets and parlays as the request; a ticket is graded exactly where it
  -- is not void, and correct exactly where it won. The card counts each ticket as graded or void,
  -- and each graded one as won or lost, and the finalized parlays.
  pub replay-status :
      (request : ReplayRequest N L) (now : IsoDate) (r : ReplayResult N L)
      → replay_validation_run N L request now ≡ done r
      → (r.validation.status
          ≡ together
              (all (has_outcome N L request.outcomes) request.atomics)
              (any (λ a. a.graded) r.atomics)
              (all (λ t. t.finalized) r.parlays))
        × (length r.atomics ≡ length request.atomics)
        × (length r.parlays ≡ length request.parlays)
        × All (IsGraded N) r.atomics
        × (r.scorecard.graded_parlays ≡ length (keep (λ t. t.finalized) r.parlays))
        × (length request.atomics ≡ r.scorecard.graded_atomics + r.scorecard.atomic_voids)
        × (r.scorecard.graded_atomics ≡ r.scorecard.atomic_wins + r.scorecard.atomic_losses)
  unfolding replay_validation_run create_validation build_validation_scorecard
  replay-status request now r e =
      let (atomics, a, f) =
        bind-done (settle_atomics N L request.outcomes request.atomics request.executed_at now) _ r
          e in
      let (parlays, b, g) =
        bind-done (settle_parlays N L atomics request.parlays request.executed_at now) _ r f in
      let (v, c, h) = bind-done _ _ r g in
      let card = build_validation_scorecard N atomics parlays in
      let (graded, l) =
        settle_atomics-IsGraded N L request.outcomes request.atomics request.executed_at now atomics
          a in
      let m = length-settle_parlays N L atomics request.parlays request.executed_at now parlays b in
      let (x, y) = count-IsGraded N atomics graded in
      subst
        (λ z.
          (z.validation.status
            ≡ together (all (has_outcome N L request.outcomes) request.atomics)
                (any (λ a. a.graded) z.atomics) (all (λ t. t.finalized) z.parlays))
          × (length z.atomics ≡ length request.atomics)
          × (length z.parlays ≡ length request.parlays)
          × All (IsGraded N) z.atomics
          × (z.scorecard.graded_parlays ≡ length (keep (λ t. t.finalized) z.parlays))
          × (length request.atomics ≡ z.scorecard.graded_atomics + z.scorecard.atomic_voids)
          × (z.scorecard.graded_atomics ≡ z.scorecard.atomic_wins + z.scorecard.atomic_losses))
        (done-eq h)
        (
          finalized_status (pending_validation N L request now) v _ _ _ _ refl c
              ∙ status-together (missing N L request.outcomes request.atomics)
                  (length request.parlays) card
              ∙ three (none_missing N L request.outcomes request.atomics)
                  (some_kept (λ a. a.graded) atomics)
                  (subst
                    (λ n.
                      (length (keep (λ t. t.finalized) parlays) == n)
                      ≡ all (λ t. t.finalized) parlays)
                    m (all_kept (λ t. t.finalized) parlays)),
          l,
          m,
          graded,
          refl,
          sym l ∙ x,
          y,
        )
    where
      three : {a b c x y z : Bool} → a ≡ x → b ≡ y → c ≡ z → together a b c ≡ together x y z
      three p q s = rw (p, q, s) refl
