-- ===== src/ControlPlane/Dispatcher/Bounds.antt =====
-- How many tasks a dispatcher cycle executes, and how it ends
-- (packages/control-plane-runtime/src/dispatcher.ts), over any queue and any workers.
use gana_v.Prelude.{
  arith, ℕ, ◌≤◌, String, false, leb, Option, none, some, List, [], ◌∷◌, ◌≡◌, length, length-append,
}
use gana_v.Queue.Task.{Time, Claim}
use gana_v.Queue.Lifecycle.{Result, ok, err}
use gana_v.Queue.Store.{Platform}
use gana_v.ControlPlane.Adapter.{TaskQueue}
use gana_v.ControlPlane.Dispatcher.Claims.{Execution, execute_claim, push_execution, after_claimed}
use gana_v.ControlPlane.Dispatcher.Work.{Workers}
use gana_v.ControlPlane.Dispatcher.Manifest.{Dispatch, run_manifest}
use gana_v.ControlPlane.Dispatcher.Returned.{Ending, always-Ending, Ending-result}
use gana_v.ControlPlane.Dispatcher.Keeps.{run_manifest-keeps}

module _ (p : Platform) (q : TaskQueue) (w : Workers q) (now : Time) (limit : ℕ) where
  abbrev IsWithin : List Execution → q.State → Type 0
  IsWithin executions s = length executions ≤ limit

  push-IsWithin :
      (executions : List Execution) (r : Result Execution × q.State)
      → leb limit (length executions) ≡ false
      → Ending Unit IsWithin (push_execution p q w now executions r)
  push-IsWithin executions (ok e, s) b = ground (arith, length-append executions (e ∷ []))
  push-IsWithin executions (err e, s) b = tt

  after_claimed-IsWithin :
      (executions : List Execution) (r : Result (Option Claim) × q.State)
      → leb limit (length executions) ≡ false
      → Ending Unit IsWithin (after_claimed p q w now executions r)
  after_claimed-IsWithin executions (ok none, s) b = ground arith
  after_claimed-IsWithin executions (ok (some c), s) b =
      push-IsWithin executions (execute_claim p q w now c s) b
  after_claimed-IsWithin executions (err e, s) b = tt

  pub run_manifest_bounded :
      (manifest_id : String) (s : q.State) (d : Dispatch)
      → (run_manifest p q w now limit manifest_id s).0 ≡ ok d
      → length d.executions ≤ limit
  run_manifest_bounded manifest_id s d e =
      Ending-result Unit (λ x. length x.executions ≤ limit)
        (run_manifest p q w now limit manifest_id s) d e
        (run_manifest-keeps p q w now limit Unit IsWithin
          (λ id executions s b h. after_claimed-IsWithin executions (q.claim id now s) b)
          (λ input executions s h. always-Ending (q.enqueue input now s) h)
          (λ ids executions s h. h) manifest_id s (omega arith))
