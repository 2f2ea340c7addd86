-- ===== src/Dataflow/Kernel/Frame.antt =====
-- What the recording of an outcome leaves alone (solution/dflow.py, `_record_task_outcome`).
use talents_parsl_checkpoint.Prelude.{
  ℕ, String, ◌≡◌, refl, Option, some, List, [], ◌∷◌, length, arith,
}
use talents_parsl_checkpoint.Dataflow.Memo.{Outcome, result, raised, MemoEntry}
use talents_parsl_checkpoint.Dataflow.Completion.{TaskOutcome}
use talents_parsl_checkpoint.Dataflow.Kernel.{CheckpointMode, task_exit, Config, Dfk}
use talents_parsl_checkpoint.Dataflow.Kernel.Keeps.{Keeps, keeps_rules}
use talents_parsl_checkpoint.Dataflow.Kernel.Publish.{
  record_task_outcome, checkpoint, given, pending_outcomes, write_queue, discard, write_payloads,
  writable, queue_for, prepare, outcome_of, keep_outcome, persist, memoize_entry,
}

-- The task records, the task table, the counters, the Futures, the queues of callbacks and the
-- history are those of the kernel c.
pub record IsSameTasks (c d : Dfk) : Type 0 where
  pub records : d.record_of ≡ c.record_of
  pub tasks : d.tasks ≡ c.tasks
  pub counts : d.task_state_counts ≡ c.task_state_counts
  pub futures : d.futures ≡ c.futures
  pub launches : d.launch_queue ≡ c.launch_queue
  pub running : d.outstanding ≡ c.outstanding
  pub joins : d.join_callbacks ≡ c.join_callbacks
  pub history : d.published ≡ c.published

module _ (cfg : Config) (c : Dfk) where
  checkpoint-Keeps : (o : TaskOutcome) → Keeps (IsSameTasks c) (checkpoint cfg (given (o ∷ [])))
  unfolding checkpoint
  checkpoint-Keeps o = record { at = λ d h. ground arith }

  write_queue-Keeps : (os : List TaskOutcome) (n : ℕ) → Keeps (IsSameTasks c) (write_queue cfg os n)
  unfolding write_queue discard write_payloads
  write_queue-Keeps [] n = record { at = λ d h. ground arith }
  write_queue-Keeps (o ∷ os) n = record { at = λ d h. ground arith }

  pending-Keeps : Keeps (IsSameTasks c) (checkpoint cfg pending_outcomes)
  unfolding checkpoint queue_for
  pending-Keeps = record {
    at = λ d h.
        (write_queue-Keeps (writable cfg d.checkpointable_tasks) (length d.checkpointable_tasks)).at
          d h;
  }

  keep_outcome-Keeps :
      (mode : CheckpointMode) (o : TaskOutcome) → Keeps (IsSameTasks c) (keep_outcome cfg mode o)
  unfolding keep_outcome
  keep_outcome-Keeps task_exit o = checkpoint-Keeps o
  keep_outcome-Keeps mode o = record { at = λ d h. ground arith }

  prepare-Keeps : (t r : ℕ) → Keeps (IsSameTasks c) (prepare cfg t r)
  unfolding prepare
  prepare-Keeps t r = record { at = λ d h. ground arith }

  outcome_of-Keeps : (t : ℕ) (e : MemoEntry) → Keeps (IsSameTasks c) (outcome_of cfg t e)
  unfolding outcome_of
  outcome_of-Keeps t e = record { at = λ d h. ground arith }

  memoize_entry-Keeps :
      (t : ℕ) (e : Option MemoEntry) → Keeps (IsSameTasks c) (memoize_entry cfg t e)
  unfolding memoize_entry
  memoize_entry-Keeps t e = record { at = λ d h. ground arith }

  persist-Keeps :
      (t : ℕ) (mode : Option CheckpointMode) (e : Option MemoEntry) (k : Option String)
      → Keeps (IsSameTasks c) (persist cfg t mode e k)
  unfolding persist
  persist-Keeps t (some mode) (some e) (some k) =
      search (keeps_rules, outcome_of-Keeps, keep_outcome-Keeps)
  persist-Keeps t mode e k = search keeps_rules

  record-Keeps : (t : ℕ) (o : Outcome) → Keeps (IsSameTasks c) (record_task_outcome cfg t o)
  unfolding record_task_outcome
  record-Keeps t (raised x) = search (keeps_rules, memoize_entry-Keeps)
  record-Keeps t (result r) =
      search (keeps_rules, memoize_entry-Keeps, prepare-Keeps, persist-Keeps)

pub IsSameTasks-refl : (d : Dfk) → IsSameTasks d d
IsSameTasks-refl d = record {
  records = refl;
  tasks = refl;
  counts = refl;
  futures = refl;
  launches = refl;
  running = refl;
  joins = refl;
  history = refl;
}

-- What `_record_task_outcome` leaves alone, whether it returns or raises.
pub record_task_outcome-IsSameTasks :
    (cfg : Config) (t : ℕ) (o : Outcome) (d : Dfk) → IsSameTasks d (record_task_outcome cfg t o d).1
record_task_outcome-IsSameTasks cfg t o d = (record-Keeps cfg d t o).at d (IsSameTasks-refl d)

pub checkpoint-IsSameTasks :
    (cfg : Config) (d : Dfk) → IsSameTasks d (checkpoint cfg pending_outcomes d).1
checkpoint-IsSameTasks cfg d = (pending-Keeps cfg d).at d (IsSameTasks-refl d)
