-- ===== src/Domain/TaskHistory.antt =====
-- The attempts of a task through its life (packages/domain-core/src/entities/task.ts).
use gana_v.Prelude.{
  String, ◌≡◌, refl, sym, ap, ◌∙◌, inl, inr, Option, none, some, List, [], ◌∷◌, ◌++◌, true, arith,
  is_some, last, all_but_last, All, All-append, Bool-cases, Option-cases,
}
use mathlib.Core.Path.{subst, subst⁻¹}
use gana_v.Queue.Owners.{last-concat}
use gana_v.Queue.Task.{TaskStatus, Time, Attempt, Task, same_status}
use gana_v.Domain.Common.{done, is_done, done-eq}
use gana_v.Domain.Task.{
  TaskInput, create_task, start_task, FinishStatus, succeeded, failed, cancelled, finish_status,
  finish_attempt, finish_task,
}

abbrev pub IsClosed : Attempt → Type 0
IsClosed attempt = is_some attempt.finished_at ≡ true

-- What the attempts look like: while the task runs, the last one is open; every other is closed.
abbrev pub Fits : TaskStatus → List Attempt → Type 0
Fits TaskStatus.running attempts =
    (prior : List Attempt) × (attempt : Attempt) × (attempts ≡ prior ++ attempt ∷ [])
    × All IsClosed prior
    × (attempt.finished_at ≡ none)
Fits _ attempts = All IsClosed attempts

-- The tasks that come from the creation of a queued task with closed attempts.
pub data Lived : Task → Type 0 where
  created :
      (input : TaskInput) (now : Time)
      → (create_task input now).status ≡ TaskStatus.queued
      → All IsClosed (create_task input now).attempts
      → Lived (create_task input now)
  started : {t u : Task} (at : Time) → Lived t → start_task t at ≡ done u → Lived u
  finished :
      {t u : Task} (outcome : FinishStatus) (error : Option String) (at : Time)
      → Lived t
      → finish_task t outcome error at ≡ done u
      → Lived u

all_but_last-snoc : (xs : List Attempt) (a : Attempt) → all_but_last (xs ++ a ∷ []) ≡ xs
all_but_last-snoc [] a = refl
all_but_last-snoc (x ∷ []) a = refl
all_but_last-snoc (x ∷ y ∷ ys) a = ap (λ zs. x ∷ zs) (all_but_last-snoc (y ∷ ys) a)

runs-eq : (s r : TaskStatus) → same_status s r ≡ true → s ≡ r
runs-eq s r h = ground arith

-- A task that can start was queued, and has one more attempt, which is open.
start-result :
    (t u : Task) (at : Time)
    → start_task t at ≡ done u
    → (t.status ≡ TaskStatus.queued)
      × (u.status ≡ TaskStatus.running)
      × (u.attempts
          ≡ t.attempts ++ record { started_at = at; finished_at = none; error = none } ∷ [])
unfolding start_task
start-result t u at e = elim (Bool-cases (same_status t.status TaskStatus.queued)) [
  | inl q ↦
      let p = done-eq {y = u} (rw q at e) in
      (
        runs-eq t.status TaskStatus.queued q,
        sym (ap (λ x. x.status) p),
        sym (ap (λ x. x.attempts) p),
      )
  | inr q ↦ absurd (let f = rw q at e in ground arith)
]

-- A task that can finish was running, and its last attempt is closed.
finish-result :
    (t u : Task) (outcome : FinishStatus) (error : Option String) (at : Time)
    → finish_task t outcome error at ≡ done u
    → (attempt : Attempt) × (t.status ≡ TaskStatus.running)
      × (last t.attempts ≡ some attempt)
      × (u.status ≡ finish_status outcome)
      × (u.attempts ≡ all_but_last t.attempts ++ finish_attempt attempt at error ∷ [])
unfolding finish_task
finish-result t u outcome error at e = elim (Bool-cases (same_status t.status TaskStatus.running)) [
  | inl q ↦ elim (Option-cases (last t.attempts)) [
    | inl n ↦ absurd (let f = rw (q, n) at e in ground arith)
    | inr (a, n) ↦
        let p = done-eq {y = u} (rw (q, n) at e) in
        (
          a,
          runs-eq t.status TaskStatus.running q,
          n,
          sym (ap (λ x. x.status) p),
          sym (ap (λ x. x.attempts) p),
        )
  ]
  | inr q ↦ absurd (let f = rw q at e in ground arith)
]

closed-Fits :
    (outcome : FinishStatus) (attempts : List Attempt)
    → All IsClosed attempts
    → Fits (finish_status outcome) attempts
closed-Fits succeeded attempts h = h
closed-Fits failed attempts h = h
closed-Fits cancelled attempts h = h

-- The attempts of a task fit its status, whatever it went through: while it runs, exactly the last
-- attempt is open, and at any other time every attempt is closed. It starts from a creation as a
-- queued task whose attempts are closed.
pub Lived-Fits : {t : Task} → Lived t → Fits t.status t.attempts
Lived-Fits (created input now q h) = subst⁻¹ (λ s. Fits s (create_task input now).attempts) q h
Lived-Fits (started {t} {u} at l e) =
    let (q, r, a) = start-result t u at e in
    subst⁻¹ (λ s. Fits s u.attempts) r
      (
        t.attempts,
        record { started_at = at; finished_at = none; error = none },
        a,
        subst (λ s. Fits s t.attempts) q (Lived-Fits l),
        refl,
      )
Lived-Fits (finished {t} {u} outcome error at l e) =
    let (a, r, n, s, k) = finish-result t u outcome error at e in
    let (prior, b, f, c, o) = subst (λ s. Fits s t.attempts) r (Lived-Fits l) in
    let p : all_but_last t.attempts ≡ prior = ap all_but_last f ∙ all_but_last-snoc prior b in
    subst⁻¹ (λ s. Fits s u.attempts) s
      (closed-Fits outcome u.attempts (
        subst⁻¹ (All IsClosed) k (
          All-append IsClosed (all_but_last t.attempts) _ (subst⁻¹ (All IsClosed) p c) (refl, tt))))

-- A task of such a history can start exactly while it is queued, and can finish exactly while it
-- runs, with every outcome and error: the error that an attempt is missing never occurs.
pub task_moves :
    (t : Task) (outcome : FinishStatus) (error : Option String) (at : Time)
    → Lived t
    → (is_done (start_task t at) ≡ same_status t.status TaskStatus.queued)
      × (is_done (finish_task t outcome error at) ≡ same_status t.status TaskStatus.running)
unfolding start_task finish_task
task_moves t outcome error at l = (
  ground arith,
  elim (Bool-cases (same_status t.status TaskStatus.running)) [
    | inl q ↦
        let r = runs-eq t.status TaskStatus.running q in
        let (prior, b, f, c, o) = subst (λ s. Fits s t.attempts) r (Lived-Fits l) in
        let n : last t.attempts ≡ some b = ap last f ∙ last-concat prior b in rw (q, n) refl
    | inr q ↦ rw q refl
  ],
)
