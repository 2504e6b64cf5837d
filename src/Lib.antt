-- ===== src/Lib.antt =====
-- A model of gana-v8, a monorepo of TypeScript packages and workers for football predictions, with
-- the theorems that make its core correct.
--
-- The parts. The control plane turns cron specifications into task envelopes under a budget and
-- dispatches them to handlers (packages/orchestration-sdk). Its cycles run over the queue: a
-- scheduler enqueues the tasks of the specifications and plans research, a dispatcher claims the
-- tasks of a manifest and calls the workers, and a recovery takes back expired leases and requeues
-- failed tasks (packages/control-plane-runtime). Producers enqueue tasks, workers claim them one
-- at a time under a lease, and report that a task is complete, failed or to be set aside
-- (packages/queue-adapters). Tasks and runs are kept in repositories, in memory or as rows of a
-- database (packages/storage-adapters). The entities that tasks work on, fixtures and their
-- workflows, predictions, parlays, validations and AI runs, have life cycles of their own
-- (packages/domain-core). Policies decide which fixtures are covered and when the operator may
-- publish (packages/policy-engine), parlays are composed of scored candidates and settled
-- (packages/parlay-engine), a replay settles predictions and parlays against known outcomes
-- (packages/validation-engine), capabilities decide who may do what (packages/authz), and a
-- request for a model of an AI provider is resolved against a catalog (packages/model-registry).
--
-- Prelude: Boolean tests, lists, texts, the stable sort, `[...new Set(xs)]` and the first of a
--   sorted filter. No code of the repository.
-- Numbers: the arithmetic of the language's doubles as an interface; Numbers/Decimal is an
--   instance.
-- Storage (packages/storage-adapters/src/in-memory.ts): `InMemoryRepository`. `save`, `get_by_id`,
--   `delete` and `delete_ids` are its methods; the map is the list of its entities in insertion
--   order. Dictionary has the abstract view, the ids in the order in which they came and a function
--   from ids, and the calls of a client. Laws and Refinement hold the proofs.
-- Mappers (packages/storage-adapters/src/prisma): Names has the kinds in the database, Rows the
--   rows of tasks and runs, the functions of mappers.ts between them and the entities, and what
--   `PrismaTaskRepository.save` returns, given the runs that the database holds. Saved holds the
--   proofs.
-- Queue (packages/queue-adapters/src/index.ts): Task has the entities, Lifecycle the pure steps
--   (`startTask` is `start_task`, and so on: each name is the source's, in snake case), Select the
--   comparison and the choice of the next task, Store the unit of work and the state monad of the
--   operations, Enqueue, Claims and Adapter the operations of `createInMemoryTaskQueueAdapter`.
--   Owners, Leases, Held, Invariant, Histories, Choice, Exclusion, Finished, Outcomes, Recycled,
--   Idling, Calm, Claimed and Running hold the proofs.
-- Authz (packages/authz/src/index.ts): actors and the checks of their capabilities; proofs in
--   Laws.
-- Policy (packages/policy-engine/src/index.ts): Coverage has the inputs of
--   `evaluateFixtureCoverageScope` and the matching of policies, Scope its body, Gates
--   `evaluateOperationalPolicy`, Promotion `evaluateSandboxPromotion`. Each block of a body that
--   pushes reasons or builds a gate is a function. Eligibility and Publication hold the proofs.
-- Domain (packages/domain-core/src): Common has `DomainError` and the outcome of an operation;
--   Task, Fixture, Workflow, Prediction, Parlay, Validation, AiRun and Sandbox have one file of
--   entities each. TaskHistory, FixtureHistory, PredictionHistory, Stages and Once hold the
--   proofs.
-- Orchestration (packages/orchestration-sdk/src/index.ts): Budget, Envelope, Dispatch
--   (`SimpleInMemoryQueue`), Cron, Scheduler (`SimpleCronScheduler`) and Router. Spending, Order,
--   CronFields, Minutes and Routes hold the proofs.
-- Parlays (packages/parlay-engine/src/index.ts): Candidate and Correlation have the scores,
--   Selection the loop that selects the legs, Build `buildParlayFromCandidates` around it, Ticket
--   `settleParlayTicket`. Legs, Account, Built, Settled and Verdicts hold the proofs.
-- Replay (packages/validation-engine/src/index.ts): Atomic has `settleAtomicTicket`, Scorecard
--   `buildValidationScorecard`, Run `replayValidationRun`. Settled, Coverage and Checks hold the
--   proofs.
-- Registry (packages/model-registry/src): Models has the models and their levels of reasoning,
--   Allowed the texts that name an allowed model, Catalog the catalog, Selection
--   `resolveCodexModelSelection` and `inferResolutionKind`, Request `resolveModelSelection`.
--   Reasoning, Resolution, Trimmed and Requested hold the proofs.
-- ControlPlane (packages/control-plane-runtime/src): Adapter is the interface of a queue, which
--   the in-memory queue fills (`in_memory`). The code passes its cycles the Prisma adapter of that
--   interface, which is not modelled: a result that says "over the in-memory queue" is about the
--   cycles over that instance, the others are about every queue; Cycle has the records of cycles, Messages the texts, Shared the
--   health of a queue, Recovery `runRecoveryCycle` with its lists in Recovery/Lists and its answer
--   in Recovery/Report, Research the planning of research, Scheduler the cron part of
--   `runSchedulerCycle` and Scheduler/Cycle the cycle around it, Dispatcher the tasks of a
--   manifest and the inputs of new ones. Under Dispatcher, Work is the call of a worker for a
--   claim, Claims the claims and their ends, Created the tasks that a cycle creates, Manifest what
--   a cycle does for its manifest, Stages the stages and Cycle `runDispatcherCycle`. Keeps, Leases
--   and Account under Recovery, Queued, Eligible and Plans under Research, Once and Minutes under
--   Scheduler, and Returned, Keeps, Bounds, Endings, Answers, Leaves and Returns under Dispatcher
--   hold the proofs.
--
-- Conventions. In the queue and the orchestration a time is a number of milliseconds: all times
-- that the code keeps there are texts printed by `toISOString`, which have one length and order as
-- the times do; times before the epoch and past the range of `Date` are not modelled. The entities
-- of the domain keep their times as texts, except for tasks, whose type is the queue's.
-- Priorities, counts, attempts, credits and lease lengths are natural numbers; odds, probabilities
-- and rates are numbers of the interface, of which nothing is assumed. A missing property is
-- `none`, and an empty text counts as missing where the code tests a text for truth. An operation
-- of the queue is a function from a store to a result and a store, and a thrown `Error` is a
-- value. Digests, `JSON.stringify` and the texts of numbers and times in ids are arguments
-- (`Platform`), of which nothing is assumed. A closed set of texts is a data type.
--
-- Loops and fuel. Every loop is over a list or a text, but one: the values of the cron field "*/n", whose
-- fuel is the count of the numbers from the least to the greatest value and one more, enough for
-- every step of at least 1.
--
-- Not modelled. The database, of which the adapters are calls: the Prisma adapter of the queue,
-- the SQL repositories other than the save of a task, and what the code does when the database
-- fails. Of the control plane logs and metrics; the specifications of `buildExampleCronSpecs`, the
-- lookup of the latest odds and the workers that a dispatcher calls are arguments. The prompts and
-- templates of the model registry, which are texts. The texts of cron expressions; the engines for
-- predictions and publication; and the workers and HTTP surfaces under apps, which move data
-- between the parts.
pub mod Prelude
pub mod Storage
pub mod Queue
pub mod Numbers
pub mod Authz
pub mod Policy
pub mod Domain
pub mod Orchestration
pub mod Parlays
pub mod Replay
pub mod Registry
pub mod ControlPlane
pub mod Mappers
