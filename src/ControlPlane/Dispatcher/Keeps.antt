-- ===== src/ControlPlane/Dispatcher/Keeps.antt =====
-- What a dispatcher cycle keeps from its first claim to its last
-- (packages/control-plane-runtime/src/dispatcher.ts), over any queue and any workers: what each
-- claim, each new task and the publisher keep. `E` is what follows where a call throws.
use gana_v.Prelude.{
  ℕ, String, false, leb, List, [], ◌∷◌, ◌≡◌, any, length, Bool-cases, inl, inr, first,
}
use gana_v.Queue.Task.{TaskKind, Time, Task, same_kind}
use gana_v.Queue.Lifecycle.{Result, ok, err}
use gana_v.Queue.Store.{Platform}
use gana_v.Queue.Enqueue.{EnqueueInput}
use gana_v.ControlPlane.Adapter.{TaskQueue}
use gana_v.ControlPlane.Dispatcher.{
  list_queued_manifest_tasks, list_manifest_tasks, prediction_input, validation_input,
}
use gana_v.ControlPlane.Dispatcher.Work.{ParlayOutcome, Workers}
use gana_v.ControlPlane.Dispatcher.Claims.{
  Execution, after_claimed, process_tasks, process_queued_tasks, process_kinds,
}
use gana_v.ControlPlane.Dispatcher.Created.{
  predicts, after_created, ensure_one, ensure_predictions, ensure_manifest_prediction_tasks,
  after_validation, ensure_manifest_validation_task,
}
use gana_v.ControlPlane.Dispatcher.Manifest.{
  Dispatch, bind_result, gather, dispatch_validations, after_predictions, after_first_kinds,
  run_manifest, ensure_validation, publish_parlay, first_kinds, some_of, researched_fixture,
  successful_predictions,
}
use gana_v.ControlPlane.Dispatcher.Returned.{
  Ending, bind-Ending, loop-Ending, choose-Ending, find-Ending,
}

module _ (p : Platform) (q : TaskQueue) (w : Workers q) (now : Time) (limit : ℕ) (E : Type 0)
    (P : List Execution → q.State → Type 0)
    (claims : (id : String) (executions : List Execution) (s : q.State)
      → leb limit (length executions) ≡ false
      → P executions s
      → Ending E P (after_claimed p q w now executions (q.claim id now s)))
    (enqueues : (input : EnqueueInput) (executions : List Execution) (s : q.State)
      → P executions s
      → Ending E (λ _ s'. P executions s') (q.enqueue input now s))
    (publishes : (ids : List String) (executions : List Execution) (s : q.State)
      → P executions s
      → P executions (w.publish ids now s).1) where
  process_tasks-keeps :
      (ts : List Task) (executions : List Execution) (s : q.State)
      → P executions s
      → Ending E P (process_tasks p q w now limit ts executions s)
  unfolding process_tasks
  process_tasks-keeps [] executions s h = h
  process_tasks-keeps (t ∷ ts) executions s h =
      choose-Ending E P (leb limit (length executions)) (ok executions, s)
        (let x = after_claimed p q w now executions (q.claim t.id now s) in
          elim x.0 [ err e ↦ (err e, x.1) | ok more ↦ process_tasks p q w now limit ts more x.1 ])
        (λ _. h)
        λ b.
          loop-Ending E P P (after_claimed p q w now executions (q.claim t.id now s))
            (process_tasks p q w now limit ts) (claims t.id executions s b h)
            (process_tasks-keeps ts)

  module _ (manifest_id : String) where
    process_kinds-keeps :
        (kinds : List TaskKind) (executions : List Execution) (s : q.State)
        → P executions s
        → Ending E P (process_kinds p q w now manifest_id limit kinds executions s)
    unfolding process_kinds process_queued_tasks
    process_kinds-keeps [] executions s h = h
    process_kinds-keeps (kind ∷ kinds) executions s h =
        loop-Ending E P P (process_queued_tasks p q w now manifest_id limit kind executions s)
          (process_kinds p q w now manifest_id limit kinds)
          (process_tasks-keeps (list_queued_manifest_tasks manifest_id kind now (q.list s))
            executions s h)
          (process_kinds-keeps kinds)

    module _ (executions : List Execution) where
      -- While no claim is executed, the executions stay as they are.
      abbrev Q : {A : Type 0} → A → q.State → Type 0
      Q a s = P executions s

      after_created-keeps :
          (created : List String) (r : Result Task × q.State)
          → Ending E Q r
          → Ending E Q (after_created p q now created r)
      after_created-keeps created (ok t, s) h = h
      after_created-keeps created (err e, s) h = h

      ensure_one-keeps :
          (existing : List Task) (id : String) (created : List String) (s : q.State)
          → P executions s
          → Ending E Q (ensure_one p q now manifest_id existing id created s)
      ensure_one-keeps existing id created s h =
          elim (Bool-cases (any (predicts p q now id) existing)) [
            | inl b ↦ rw b h
            | inr b ↦ rw b (
                after_created-keeps created (q.enqueue (prediction_input manifest_id id now) now s)
                  (enqueues (prediction_input manifest_id id now) executions s h))
          ]

      ensure_predictions-keeps :
          (existing : List Task) (ids created : List String) (s : q.State)
          → P executions s
          → Ending E Q (ensure_predictions p q now manifest_id existing ids created s)
      unfolding ensure_predictions
      ensure_predictions-keeps existing [] created s h = h
      ensure_predictions-keeps existing (id ∷ ids) created s h =
          loop-Ending E Q Q (ensure_one p q now manifest_id existing id created s)
            (ensure_predictions p q now manifest_id existing ids)
            (ensure_one-keeps existing id created s h) (ensure_predictions-keeps existing ids)

      after_validation-keeps :
          (r : Result Task × q.State) → Ending E Q r → Ending E Q (after_validation p q now r)
      after_validation-keeps (ok t, s) h = h
      after_validation-keeps (err e, s) h = h

      ensure_task-keeps :
          (ids : List String) (s : q.State)
          → P executions s
          → Ending E Q (ensure_manifest_validation_task p q now manifest_id ids s)
      unfolding ensure_manifest_validation_task
      ensure_task-keeps ids s h =
          find-Ending E Q
            (first (λ t. same_kind t.kind TaskKind.validation)
              (list_manifest_tasks manifest_id (q.list s)))
            (λ existing. (ok existing.id, s))
            (after_validation p q now (q.enqueue (validation_input p manifest_id ids now) now s))
            (λ existing. h)
            (after_validation-keeps (q.enqueue (validation_input p manifest_id ids now) now s)
              (enqueues (validation_input p manifest_id ids now) executions s h))

      ensure_validation-keeps :
          (ids : List String) (s : q.State)
          → P executions s
          → Ending E P (ensure_validation p q w now manifest_id ids executions s)
      ensure_validation-keeps [] s h = h
      ensure_validation-keeps (id ∷ ids) s h =
          bind-Ending E Q P (ensure_manifest_validation_task p q now manifest_id (id ∷ ids) s)
            (λ _ s'. (ok executions, s')) (ensure_task-keeps (id ∷ ids) s h) (λ _ s' k. k)

    abbrev OfDispatch : Dispatch → q.State → Type 0
    OfDispatch d s = P d.executions s

    gather-keeps :
        (ids : List String) (parlay : ParlayOutcome) (r : Result (List Execution) × q.State)
        → Ending E P r
        → Ending E OfDispatch (gather p q w now limit manifest_id ids parlay r)
    gather-keeps ids parlay (ok executions, s) h = h
    gather-keeps ids parlay (err e, s) h = h

    dispatch_validations-keeps :
        (ids : List String) (executions : List Execution) (x : ParlayOutcome × q.State)
        → P executions x.1
        → Ending E OfDispatch (dispatch_validations p q w now limit manifest_id ids executions x)
    dispatch_validations-keeps ids executions (parlay, s) h =
        gather-keeps ids parlay
          (bind_result (ensure_validation p q w now manifest_id ids executions s)
            (process_kinds p q w now manifest_id limit (TaskKind.validation ∷ [])))
          (bind-Ending E P P (ensure_validation p q w now manifest_id ids executions s)
            (process_kinds p q w now manifest_id limit (TaskKind.validation ∷ []))
            (ensure_validation-keeps executions ids s h)
            (process_kinds-keeps (TaskKind.validation ∷ [])))

    publish-keeps :
        (ids : List String) (executions : List Execution) (s : q.State)
        → P executions s
        → P executions (publish_parlay p q w now ids s).1
    publish-keeps [] executions s h = h
    publish-keeps (id ∷ ids) executions s h = publishes (id ∷ ids) executions s h

    after_predictions-keeps :
        (executions : List Execution) (s : q.State)
        → P executions s
        → Ending E OfDispatch (after_predictions p q w now limit manifest_id executions s)
    after_predictions-keeps executions s h =
        let ids = successful_predictions (list_manifest_tasks manifest_id (q.list s)) in
        dispatch_validations-keeps ids executions (publish_parlay p q w now ids s)
          (publish-keeps ids executions s h)

    after_first_kinds-keeps :
        (executions : List Execution) (s : q.State)
        → P executions s
        → Ending E OfDispatch (after_first_kinds p q w now limit manifest_id executions s)
    unfolding ensure_manifest_prediction_tasks
    after_first_kinds-keeps executions s h =
        bind-Ending E (λ _ s'. P executions s') OfDispatch
          (ensure_manifest_prediction_tasks p q now manifest_id
            (some_of researched_fixture executions) s)
          (λ _ s'.
            bind_result
              (process_kinds p q w now manifest_id limit (TaskKind.prediction ∷ []) executions s')
              (after_predictions p q w now limit manifest_id))
          (ensure_predictions-keeps executions (list_manifest_tasks manifest_id (q.list s)) _ [] s
            h)
          λ _ s' k.
            bind-Ending E P OfDispatch
              (process_kinds p q w now manifest_id limit (TaskKind.prediction ∷ []) executions s')
              (after_predictions p q w now limit manifest_id)
              (process_kinds-keeps (TaskKind.prediction ∷ []) executions s' k)
              after_predictions-keeps

    pub run_manifest-keeps :
        (s : q.State) → P [] s → Ending E OfDispatch (run_manifest p q w now limit manifest_id s)
    unfolding run_manifest
    run_manifest-keeps s h =
        bind-Ending E P OfDispatch (process_kinds p q w now manifest_id limit first_kinds [] s)
          (after_first_kinds p q w now limit manifest_id) (process_kinds-keeps first_kinds [] s h)
          after_first_kinds-keeps
