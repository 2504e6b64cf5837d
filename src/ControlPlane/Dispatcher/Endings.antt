-- ===== src/ControlPlane/Dispatcher/Endings.antt =====
-- How a dispatcher cycle ends (packages/control-plane-runtime/src/dispatcher.ts), over any queue and
-- any workers.
use gana_v.Prelude.{
  ℕ, ◌≤◌, String, Bool, true, false, not, ◌&&◌, Option, none, some, List, ◌∷◌, ◌++◌, ◌≡◌, ◌⊎◌,
  length, all, if◌then◌else◌,
}
use gana_v.Prelude.Texts.{str_eq, truthy}
use gana_v.Queue.Task.{Time}
use gana_v.Queue.Lifecycle.{QueueError, ok, err}
use gana_v.Queue.Store.{Platform}
use gana_v.ControlPlane.Adapter.{TaskQueue}
use gana_v.ControlPlane.Messages.{error_message}
use gana_v.ControlPlane.Cycle.{succeeded, failed}
use gana_v.ControlPlane.Dispatcher.Work.{
  Work, output, thrown, Workers, ParlayOutcome, publisher_error,
}
use gana_v.ControlPlane.Dispatcher.Claims.{Execution}
use gana_v.ControlPlane.Dispatcher.Stages.{error_of}
use gana_v.ControlPlane.Dispatcher.Manifest.{Dispatch, run_manifest}
use gana_v.ControlPlane.Dispatcher.Cycle.{DispatcherRecord}

abbrev pub has_no_error : Execution → Bool
has_no_error e = elim e.result [ output _ ↦ true | thrown message ↦ str_eq message "" ]

-- The execution `e` is the first of `es` with an error that is not empty, and `m` is that error.
abbrev pub FailsFirst : List Execution → Execution → String → Type 0
FailsFirst es e m =
    (before after : List Execution) × (es ≡ before ++ e ∷ after)
    × (all has_no_error before ≡ true)
    × (e.result ≡ thrown m)
    × (str_eq m "" ≡ false)

-- There is no error where no execution has one, and otherwise it is that of the first that has one.
abbrev pub IsFirstError : List Execution → Option String → Type 0
IsFirstError es o =
    ((o ≡ none) × (all has_no_error es ≡ true))
    ⊎ ((e : Execution) × (m : String) × (o ≡ some m) × FailsFirst es e m)

abbrev HasError : Execution → Type 0
HasError e =
    (m : String) × (error_of e ≡ some m)
    × (e.result ≡ thrown m)
    × (str_eq m "" ≡ false)
    × (has_no_error e ≡ false)

abbrev pub is_publisher_error : ParlayOutcome → Bool
is_publisher_error (publisher_error message) = true
is_publisher_error _ = false

abbrev pub has_worked : Dispatch → Bool
has_worked d = all has_no_error d.executions && not (is_publisher_error d.parlay)

module _ (p : Platform) (q : TaskQueue) (w : Workers q) (now : Time) where
  -- The endings of a cycle that has found the manifest `m`.
  abbrev pub Ends : ℕ → DispatcherRecord → String → q.State → Type 0
  Ends limit finished m s =
      ((e : QueueError) × ((run_manifest p q w now limit m s).0 ≡ err e)
        × (finished.status ≡ failed)
        × (finished.error ≡ truthy (some (error_message p e))))
      ⊎ ((d : Dispatch) × ((run_manifest p q w now limit m s).0 ≡ ok d)
          × (length d.executions ≤ limit)
          × (finished.status ≡ (if has_worked d then succeeded else failed))
          × IsFirstError d.executions finished.error)
