-- ===== src/Domain/FixtureHistory.antt =====
-- The statuses that a fixture goes through (packages/domain-core/src/entities/fixture.ts).
use gana_v.Prelude.{
  ℕ, suc, ◌+◌, ◌≤◌, ◌≡◌, sym, ap, Option, false, arith, ltb, ltb→lt, any, ◌<◌, ◌∙◌, or_else, not,
  ◌&&◌, is_some, Bool-cases, inl, inr,
}
use gana_v.Domain.Common.{IsoDate, done, is_done, done-eq}
use gana_v.Domain.Fixture.{
  Fixture, FixtureScore, FixtureStatus, scheduled, live, completed, cancelled, valid_transitions,
  same_fixture_status, transition_fixture_status,
}

-- How far a fixture has come.
abbrev pub progress : FixtureStatus → ℕ
progress scheduled = 0
progress live = 1
progress completed = 2
progress cancelled = 2

valid-progress :
    (s t : FixtureStatus)
    → any (λ x. same_fixture_status x t) (valid_transitions s) ≡ ltb (progress s) (progress t)
unfolding valid_transitions
valid-progress s t = ground arith

-- A transition succeeds exactly where it goes forward, from "scheduled" over "live" to "completed" or
-- "cancelled"; either of the last two takes none.
pub transition-forward :
    (f : Fixture IsoDate) (next : FixtureStatus) (score : Option FixtureScore) (now : IsoDate)
    → is_done (transition_fixture_status f next score now) ≡ ltb (progress f.status) (progress next)
unfolding transition_fixture_status
transition-forward f next score now = ground (arith, valid-progress f.status next)

-- `n` transitions that succeed lead from one fixture to the other.
pub data Transitions : ℕ → Fixture IsoDate → Fixture IsoDate → Type 0 where
  here : {f : Fixture IsoDate} → Transitions 0 f f
  moved :
      {n : ℕ} {f g h : Fixture IsoDate} (next : FixtureStatus) (score : Option FixtureScore)
      (now : IsoDate)
      → Transitions n f g
      → transition_fixture_status g next score now ≡ done h
      → Transitions (suc n) f h

transition-result :
    (f g : Fixture IsoDate) (next : FixtureStatus) (score : Option FixtureScore) (now : IsoDate)
    → transition_fixture_status f next score now ≡ done g
    → (g.score ≡ or_else score f.score) × (progress f.status < progress g.status)
unfolding transition_fixture_status
transition-result f g next score now e =
    elim (Bool-cases (any (λ x. same_fixture_status x next) (valid_transitions f.status))) [
      | inl t ↦
          let p = done-eq {y = g} (rw t at e) in
          let s : g.status ≡ next = sym (ap (λ x. x.status) p) in
          (sym (ap (λ x. x.score) p), rw s (ltb→lt _ _ (sym (valid-progress f.status next) ∙ t)))
      | inr t ↦ absurd (let q = rw t at e in ground arith)
    ]

some-or_else :
    (a b c d : Option FixtureScore)
    → d ≡ or_else a b
    → (is_some c && not (is_some b)) ≡ false
    → (is_some c && not (is_some d)) ≡ false
some-or_else a b c d e h = ground (arith, e)

progress-le : (s : FixtureStatus) → progress s ≤ 2
progress-le s = ground arith

-- Whatever a fixture goes through, at most two of its transitions succeed, each brings it forward,
-- and a score that it has once is never lost.
pub Transitions-bounded :
    {n : ℕ} {f g : Fixture IsoDate}
    → Transitions n f g
    → (n + progress f.status ≤ progress g.status)
      × (n ≤ 2)
      × ((is_some f.score && not (is_some g.score)) ≡ false)
Transitions-bounded (here {f}) = (omega arith, omega arith, ground arith)
Transitions-bounded (moved {n} {f} {g} {h} next score now t e) =
    let (p, q, r) = Transitions-bounded t in
    let (s, l) = transition-result g h next score now e in
    let b = progress-le h.status in
    (omega arith, omega arith, some-or_else score g.score f.score h.score s r)
