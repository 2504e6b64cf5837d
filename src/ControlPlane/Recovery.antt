-- ===== src/ControlPlane/Recovery.antt =====
-- `runRecoveryCycle` (packages/control-plane-runtime/src/recovery.ts): expired leases are reclaimed
-- and their tasks redriven or put aside, then some terminal tasks are queued again. Logs and
-- metrics are left out, and so are the errors of the database itself, which end the cycle as
-- failed.
pub mod Lists
pub mod Report
pub mod Keeps
pub mod Leases
pub mod Account
use gana_v.Prelude.{
  ℕ, max, leb, String, Bool, Option, none, some, List, [], ◌∷◌, ◌++◌, map, get_or, if◌then◌else◌,
  keep, take, length,
}
use gana_v.Prelude.Texts.{join}
use gana_v.Prelude.Sort.{sort}
use gana_v.Queue.Task.{TaskStatus, Time, Task, Claim, same_status}
use gana_v.Queue.Lifecycle.{QueueError, Result, ok, err}
use gana_v.Queue.Store.{Platform}
use gana_v.Queue.Adapter.{TaskSummary}
use gana_v.ControlPlane.Adapter.{TaskQueue}
use gana_v.ControlPlane.Messages.{error_message}
use gana_v.ControlPlane.Shared.{
  default_recovery_renew_lease_ms, default_recovery_lease_recovery_limit, has_expired_task_lease,
}
use gana_v.ControlPlane.Recovery.Lists.{due_before, is_terminal, updated_before}

-- `recoveryActions`
pub data RecoveryAction : Type 0 where
  skip_expired_lease : String → RecoveryAction
  quarantine_expired_lease : String → String → String → RecoveryAction
  redrive_expired_lease : String → String → Option Time → RecoveryAction
  error_expired_lease : String → String → RecoveryAction
  requeue_terminal_task : String → TaskStatus → RecoveryAction
  error_requeue_terminal_task : String → String → RecoveryAction

-- The lists that the loops push to.
pub record Progress : Type 0 where
  pub recovered : List String
  pub renewed : List String
  pub redriven : List String
  pub quarantined : List String
  pub manual_review : List String
  pub skipped : List String
  pub errors : List String
  pub actions : List RecoveryAction

abbrev pub no_progress : Progress
no_progress = record {
  recovered = [];
  renewed = [];
  redriven = [];
  quarantined = [];
  manual_review = [];
  skipped = [];
  errors = [];
  actions = [];
}

pub record RecoveryOptions : Type 0 where
  pub redrive_limit : Option ℕ
  pub lease_recovery_limit : Option ℕ
  pub renew_lease_ms : Option ℕ

abbrev pub redrive_limit_of : RecoveryOptions → ℕ
redrive_limit_of options = get_or options.redrive_limit 3

abbrev pub lease_recovery_limit_of : RecoveryOptions → ℕ
lease_recovery_limit_of options =
    get_or options.lease_recovery_limit
      (max (redrive_limit_of options) default_recovery_lease_recovery_limit)

abbrev pub renew_lease_ms_of : RecoveryOptions → ℕ
renew_lease_ms_of options =
    max 30000 (get_or options.renew_lease_ms default_recovery_renew_lease_ms)

-- What each end of a round pushes.
abbrev pub skip_lease : String → Progress → Progress
skip_lease id g = record g {
  skipped = g.skipped ++ id ∷ [];
  actions = g.actions ++ skip_expired_lease id ∷ [];
}

abbrev pub fail_lease : String → String → Progress → Progress
fail_lease id message g = record g {
  errors = g.errors ++ message ∷ [];
  actions = g.actions ++ error_expired_lease id message ∷ [];
}

abbrev pub recover_lease : String → Progress → Progress
recover_lease id g = record g { recovered = g.recovered ++ id ∷ [] }

abbrev pub renew_progress : String → Progress → Progress
renew_progress id g = record g { renewed = g.renewed ++ id ∷ [] }

abbrev pub put_aside : Claim → String → Progress → Progress
put_aside c reason g = record g {
  quarantined = g.quarantined ++ c.task.id ∷ [];
  manual_review = g.manual_review ++ c.task.id ∷ [];
  actions = g.actions ++ quarantine_expired_lease c.task.id c.task_run.id reason ∷ [];
}

abbrev pub redrive_lease : Claim → Progress → Progress
redrive_lease c g = record g {
  redriven = g.redriven ++ c.task.id ∷ [];
  actions = g.actions ++ redrive_expired_lease c.task.id c.task_run.id c.task.scheduled_for ∷ [];
}

abbrev pub requeue_terminal : Task → Task → Progress → Progress
requeue_terminal task requeued g = record g {
  redriven = g.redriven ++ requeued.id ∷ [];
  actions = g.actions ++ requeue_terminal_task requeued.id task.status ∷ [];
}

abbrev pub fail_requeue : String → String → Progress → Progress
fail_requeue id message g = record g {
  errors = g.errors ++ message ∷ [];
  actions = g.actions ++ error_requeue_terminal_task id message ∷ [];
}

-- `expiredLeaseCandidates` and `terminalTasks`
unfoldable pub lease_candidates : Time → ℕ → List Task → List Task
unfolding has_expired_task_lease sort
lease_candidates now limit tasks =
    take limit (sort due_before (keep (has_expired_task_lease now) tasks))

unfoldable pub terminal_tasks : ℕ → Progress → List Task → List Task
unfolding sort
terminal_tasks limit g tasks =
    take limit (sort updated_before (keep (is_terminal g.redriven g.quarantined) tasks))

abbrev pub redrive_error : String
redrive_error = "Recovered expired lease; scheduling redrive."

module _ (p : Platform) (q : TaskQueue) (now : Time) (renew_ms : ℕ) where
  abbrev pub review_reason : Task → String
  review_reason task = join (
      "Recovered expired lease after "
      ∷ p.number_to_string (length task.attempts)
      ∷ " attempts; manual review required."
      ∷ [])

  -- After `quarantine`, and after `fail`, which may have quarantined too.
  abbrev pub after_quarantine :
      String → String → Progress → Result Claim × q.State → Progress × q.State
  after_quarantine id reason g (ok c, s) = (put_aside c reason g, s)
  after_quarantine id reason g (err e, s) = (fail_lease id (error_message p e) g, s)

  abbrev pub failed_claim : Claim → Progress → Progress
  failed_claim c g =
      if same_status c.task.status TaskStatus.quarantined
      then put_aside c
          (get_or c.task.last_error_message "Recovered expired lease exhausted retries.") g
      else redrive_lease c g

  abbrev pub after_fail : String → Progress → Result Claim × q.State → Progress × q.State
  after_fail id g (ok c, s) = (failed_claim c g, s)
  after_fail id g (err e, s) = (fail_lease id (error_message p e) g, s)

  -- After `renewLease`: a task without attempts left is put aside, and any other one fails its claim.
  abbrev pub after_renew : String → Progress → Result Claim × q.State → Progress × q.State
  after_renew id g (err e, s) = (fail_lease id (error_message p e) g, s)
  after_renew id g (ok c, s) =
      if leb c.task.max_attempts (length c.task.attempts)
      then after_quarantine id (review_reason c.task) (renew_progress c.task.id g)
          (q.quarantine c.task.id c.task_run.id (review_reason c.task) now s)
      else after_fail id (renew_progress c.task.id g)
          (q.fail c.task.id c.task_run.id redrive_error now s)

  abbrev pub after_claim : String → Progress → Result (Option Claim) × q.State → Progress × q.State
  after_claim id g (err e, s) = (fail_lease id (error_message p e) g, s)
  after_claim id g (ok none, s) = (skip_lease id g, s)
  after_claim id g (ok (some c), s) =
      after_renew id (recover_lease c.task.id g)
        (q.renew_lease c.task.id c.task_run.id now renew_ms s)

  -- The loop over the tasks whose lease is over.
  unfoldable pub recover_leases : List Task → Progress → q.State → Progress × q.State
  recover_leases [] g s = (g, s)
  recover_leases (t ∷ ts) g s =
      let (h, s') = after_claim t.id g (q.claim t.id now s) in recover_leases ts h s'

  abbrev pub after_requeue : Task → Progress → Result Task × q.State → Progress × q.State
  after_requeue task g (ok requeued, s) = (requeue_terminal task requeued g, s)
  after_requeue task g (err e, s) = (fail_requeue task.id (error_message p e) g, s)

  -- The loop over the terminal tasks.
  unfoldable pub requeue_tasks : List Task → Progress → q.State → Progress × q.State
  requeue_tasks [] g s = (g, s)
  requeue_tasks (t ∷ ts) g s =
      let (h, s') = after_requeue t g (q.requeue t.id now s) in requeue_tasks ts h s'

  -- Both loops; with a limit of 0 no task is terminal.
  unfoldable pub recover : ℕ → ℕ → q.State → Progress × q.State
  unfolding recover_leases requeue_tasks lease_candidates terminal_tasks
  recover lease_limit redrive_limit s =
      let (g, s') = recover_leases (lease_candidates now lease_limit (q.list s)) no_progress s in
      requeue_tasks (terminal_tasks redrive_limit g (q.list s')) g s'
