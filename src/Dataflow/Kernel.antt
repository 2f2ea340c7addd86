-- ===== src/Dataflow/Kernel.antt =====
-- The state of class `DataFlowKernel` in solution/dflow.py, and the actions on it. What an action
-- changed before it raised stays changed, so the state comes back beside the exception.
pub mod Publish
pub mod Join
pub mod Update
pub mod Launch
pub mod Unwrapped
pub mod Keeps
pub mod Frame
pub mod Finalised
pub mod Handlers
pub mod Boundary
pub mod Events
pub mod Ledger
pub mod Success
pub mod Transaction
pub mod Durability
pub mod Retries
pub mod Reuse
pub mod Counts
pub mod Submit
pub mod Parts
pub mod Local
pub mod Settled
pub mod Woken
pub mod Launched
pub mod Counted
use talents_parsl_checkpoint.Prelude.{
  ℕ, String, Bool, true, false, Option, none, some, List, ◌==◌, if◌then◌else◌,
}
use talents_parsl_checkpoint.Prelude.Int.{ℤ}
use talents_parsl_checkpoint.Dataflow.Errors.{Exn, Result, ok, err}
use talents_parsl_checkpoint.Dataflow.States.{States}
use talents_parsl_checkpoint.Dataflow.Values.{Value, Runtime, Heap}
use talents_parsl_checkpoint.Dataflow.Tasks.{TaskRecord}
use talents_parsl_checkpoint.Dataflow.Memo.{Outcome, Table}
use talents_parsl_checkpoint.Dataflow.Dependencies.{DependencyResolver}
use talents_parsl_checkpoint.Dataflow.Completion.{TaskOutcome}
use talents_parsl_checkpoint.Dataflow.Checkpoint.{Disk}

pub data CheckpointMode : Type 0 where
  task_exit manual periodic dfk_exit : CheckpointMode

-- How an executor's Future ends: with a reference to the value that the body returned, with a
-- `RemoteExceptionWrapper`, or with an exception.
pub data ExecResult : Type 0 where
  returned : ℕ → ExecResult
  wrapped excepted : Exn → ExecResult

-- The parts of the Config that are read below, and the library. The costs that a retry handler
-- gives are counted in whole units.
pub record Config : Type 0 where
  pub rt : Runtime
  pub app_cache : Bool
  pub checkpoint_mode : Option CheckpointMode
  pub garbage_collect : Bool
  pub retries : ℕ
  pub retry_handler : Option (Exn → TaskRecord → Result ℕ)
  pub dependency_resolver : DependencyResolver
  -- `executors[label].submit`: it raises, or gives a Future that may be done already
  pub executors : String → Option (TaskRecord → Result (Option ExecResult))
  -- `render_future_description`
  pub describe : Value → String

-- What is to be seen at the moment when a task's AppFuture becomes done.
pub record Publication : Type 0 where
  pub task_id : ℕ
  pub task : TaskRecord
  pub outcome : Outcome
  -- `dfk.tasks`
  pub tasks : List ℕ
  pub heap : Heap
  pub memo_lookup_table : Table
  pub stream : Option (List ℕ)
  pub checkpointable_tasks : List TaskOutcome

pub record Dfk : Type 0 where
  pub heap : Heap
  pub memo_lookup_table : Table
  pub disk : Disk
  pub checkpointable_tasks : List TaskOutcome
  pub checkpointed_tasks : ℕ
  -- the task records, by task ID; a record outlives its entry of `tasks`
  pub record_of : ℕ → TaskRecord
  -- the keys of `self.tasks`
  pub tasks : List ℕ
  pub task_state_counts : States → ℤ
  -- how each Future has ended, `none` while it has not
  pub futures : ℕ → Option Outcome
  -- the task IDs submitted to `dependency_launch_pool`
  pub launch_queue : List ℕ
  -- the tasks whose executor Future is not done, each once for each submission
  pub outstanding : List ℕ
  -- the Futures on which a join task listens, each with the task
  pub join_callbacks : List (ℕ × ℕ)
  -- the history of what was published, the newest first; no operation reads it
  pub published : List Publication

abbrev pub update {ℓ} : {A : Type ℓ} → (ℕ → A) → ℕ → A → ℕ → A
update f k v n = if n == k then v else f n

abbrev pub Action {ℓ} : Type ℓ → Type ℓ
Action A = Dfk → Result A × Dfk

module _ {ℓ} {A : Type ℓ} where
  abbrev pub pure : A → Action A
  pure a d = (ok a, d)

  abbrev pub throw : Exn → Action A
  throw x d = (err x, d)

  abbrev pub gets : (Dfk → A) → Action A
  gets f d = (ok (f d), d)

  abbrev pub settle {κ} : {B : Type κ} → Result A → (A → Action B) → (Exn → Action B) → Action B
  settle (ok a) after handler = after a
  settle (err x) after handler = handler x

  -- `try: body` / `except … as x: handler`, with what comes after the body.
  abbrev pub try_except {κ} : {B : Type κ} → Action A → (A → Action B) → (Exn → Action B) → Action B
  try_except body after handler d = let (r, d') = body d in settle r after handler d'

-- An action whose exception is logged and dropped.
abbrev pub dropping : Action (Unit {0}) → Action (Unit {0})
dropping m d = (ok tt, (m d).1)

abbrev pub modify : (Dfk → Dfk) → Action (Unit {0})
modify f d = (ok tt, f d)

module _ {ℓ κ} {A : Type ℓ} {B : Type κ} where
  abbrev pub and_then : Result A → (A → Action B) → Action B
  and_then (ok a) f = f a
  and_then (err x) f = throw x

  infixl 5 ◌>>=◌ ◌>>◌
  abbrev pub ◌>>=◌ : Action A → (A → Action B) → Action B
  m >>= f = λ d. let (r, d') = m d in and_then r f d'

  abbrev pub ◌>>◌ : Action A → Action B → Action B
  m >> n = m >>= λ _. n
