-- ===== src/Dataflow/Kernel/Publish.antt =====
-- solution/dflow.py: how a task ends. `update_task_state`, `wipe_task`, `checkpoint`,
-- `_record_task_outcome` and `_complete_task`.
use talents_parsl_checkpoint.Prelude.{
  ℕ, ◌+◌, ◌==◌, Bool, false, ◌&&◌, not, String, Option, none, some, List, [], ◌∷◌, ◌++◌, length,
  drop, has_id, if◌then◌else◌,
}
use talents_parsl_checkpoint.Prelude.Int.{ℤ, increment, decrement}
use talents_parsl_checkpoint.Dataflow.Errors.{
  Exn, key_error, invalid_state, assertion_error, ok, err,
}
use talents_parsl_checkpoint.Dataflow.States.{States, failed, is_final, is_final_failure, ◌is◌}
use talents_parsl_checkpoint.Dataflow.Tasks.{TaskRecord}
use talents_parsl_checkpoint.Dataflow.Memo.{MemoEntry, Outcome, result, raised}
use talents_parsl_checkpoint.Dataflow.Memo.Memoizer.{prepare_success, prepare_failure, update_memo}
use talents_parsl_checkpoint.Dataflow.Completion.{TaskOutcome, succeeded, make_outcome}
use talents_parsl_checkpoint.Dataflow.Checkpoint.{write_checkpoint_payloads}
use talents_parsl_checkpoint.Dataflow.Kernel.{
  CheckpointMode, task_exit, Config, Publication, Dfk, update, Action, pure, throw, gets,
  try_except, modify, ◌>>=◌, ◌>>◌,
}

-- `task_record[...] = ...`
abbrev pub set_record : ℕ → (TaskRecord → TaskRecord) → Dfk → Dfk
set_record t f d = record d { record_of = update d.record_of t (f (d.record_of t)) }

abbrev pub uncount : Option States → (States → ℤ) → States → ℤ
uncount none counts s = counts s
uncount (some old) counts s = if s is old then decrement (counts s) else counts s

-- The counters with a task moved from its old state, if it has one, to the new one.
abbrev pub recount : Option States → States → (States → ℤ) → States → ℤ
recount old new counts s =
    let left = uncount old counts s in if s is new then increment left else left

unfoldable pub update_task_state : ℕ → States → Action (Unit {0})
update_task_state t new = modify λ d. record d {
  task_state_counts = recount (d.record_of t).status new d.task_state_counts;
  record_of = update d.record_of t (record (d.record_of t) { status = some new });
}

abbrev pub without : ℕ → List ℕ → List ℕ
without t [] = []
without t (x ∷ xs) = let rest = without t xs in if x == t then rest else x ∷ rest

-- `del self.tasks[task_id]` raises KeyError if the task is not there.
unfoldable pub wipe_task : Config → ℕ → Action (Unit {0})
wipe_task cfg t d =
    if cfg.garbage_collect
    then (if has_id t d.tasks
        then (ok tt, record d { tasks = without t d.tasks })
        else (err key_error, d))
    else (ok tt, d)

abbrev pub publication : Dfk → ℕ → Outcome → Publication
publication d t o = record {
  task_id = t;
  task = d.record_of t;
  outcome = o;
  tasks = d.tasks;
  heap = d.heap;
  memo_lookup_table = d.memo_lookup_table;
  stream = d.disk.stream;
  checkpointable_tasks = d.checkpointable_tasks;
}

unfoldable pub finish : Option Outcome → ℕ → Outcome → Action (Unit {0})
finish (some _) t o d = (err invalid_state, d)
finish none t o d = (
  ok tt,
  record d {
    futures = update d.futures (d.record_of t).app_fu (some o);
    published = publication d t o ∷ d.published;
  },
)

-- `set_result` or `set_exception` of the task's AppFuture, which raises if the Future is done.
unfoldable pub set_app_future : ℕ → Outcome → Action (Unit {0})
unfolding finish
set_app_future t o d = finish (d.futures (d.record_of t).app_fu) t o d

-- The arguments of `checkpoint`: none, `outcomes`, or `tasks`.
pub data Request : Type 0 where
  pending_outcomes : Request
  given : List TaskOutcome → Request
  of_tasks : List ℕ → Request

module _ (cfg : Config) where
  -- `prepare_success` and `TaskOutcome`, on the heap of the kernel.
  unfoldable pub prepare : ℕ → ℕ → Action (Option MemoEntry)
  prepare t r d =
      let (e, h) = prepare_success cfg.rt cfg.app_cache (d.record_of t) r d.heap in
      (ok e, record d { heap = h })

  unfoldable pub outcome_of : ℕ → MemoEntry → Action TaskOutcome
  outcome_of t e d =
      let (o, h) = make_outcome cfg.rt (d.record_of t) e d.heap in (o, record d { heap = h })

  -- An entry that has a hash becomes an outcome.
  outcome_for : ℕ → Option MemoEntry → Option String → Action (List TaskOutcome)
  unfolding outcome_of
  outcome_for t (some e) (some k) = do o ← outcome_of t e; pure (o ∷ [])
  outcome_for t _ _ = pure []

  -- A task counts if its AppFuture is done, with a result.
  outcome_of_future : ℕ → Option Outcome → Action (List TaskOutcome)
  unfolding prepare outcome_for
  outcome_of_future t (some (result r)) = do
    e ← prepare t r
    k ← gets (λ d. (d.record_of t).hashsum)
    outcome_for t e k
  outcome_of_future t _ = pure []

  outcomes_of_tasks : List ℕ → Action (List TaskOutcome)
  unfolding outcome_of_future
  outcomes_of_tasks [] = pure []
  outcomes_of_tasks (t ∷ ts) = do
    f ← gets (λ d. d.futures (d.record_of t).app_fu)
    os ← outcome_of_future t f
    more ← outcomes_of_tasks ts
    pure (os ++ more)

  -- The queue, and the number of pending outcomes that it takes.
  unfoldable pub queue_for : Request → Action (List TaskOutcome × ℕ)
  unfolding outcomes_of_tasks
  queue_for (given os) = pure (os, 0)
  queue_for (of_tasks ts) = do os ← outcomes_of_tasks ts; pure (os, 0)
  queue_for pending_outcomes = gets (λ d. (d.checkpointable_tasks, length d.checkpointable_tasks))

  abbrev has_payload : TaskOutcome → Bool
  has_payload o = elim o.checkpoint_payload [ some b ↦ succeeded o | none ↦ false ]

  unfoldable pub writable : List TaskOutcome → List TaskOutcome
  writable [] = []
  writable (o ∷ os) = let rest = writable os in if has_payload o then o ∷ rest else rest

  unfoldable pub write_payloads : List TaskOutcome → Action (Unit {0})
  write_payloads os d =
      let (r, disk) = write_checkpoint_payloads os d.disk in (r, record d { disk = disk })

  -- `del self.checkpointable_tasks[:deferred_count]`
  unfoldable pub discard : ℕ → Action (Unit {0})
  discard n = modify (λ d. record d { checkpointable_tasks = drop n d.checkpointable_tasks })

  unfoldable pub write_queue : List TaskOutcome → ℕ → Action (Unit {0})
  unfolding discard write_payloads
  write_queue [] deferred = discard deferred
  write_queue (o ∷ os) deferred = do
    write_payloads (o ∷ os)
    discard deferred
    modify (λ d. record d { checkpointed_tasks = d.checkpointed_tasks + length (o ∷ os) })

  unfoldable pub checkpoint : Request → Action (Unit {0})
  unfolding queue_for writable write_queue
  checkpoint request = do queue ← queue_for request; write_queue (writable queue.0) queue.1

  -- What the checkpoint mode asks for.
  unfoldable pub keep_outcome : CheckpointMode → TaskOutcome → Action (Unit {0})
  unfolding checkpoint
  keep_outcome task_exit o = checkpoint (given (o ∷ []))
  keep_outcome mode o =
      modify (λ d. record d { checkpointable_tasks = d.checkpointable_tasks ++ o ∷ [] })

  unfoldable pub persist :
      ℕ → Option CheckpointMode → Option MemoEntry → Option String → Action (Unit {0})
  unfolding outcome_of keep_outcome
  persist t (some mode) (some e) (some k) = do o ← outcome_of t e; keep_outcome mode o
  persist t _ _ _ = pure tt

  unfoldable pub memoize_entry : ℕ → Option MemoEntry → Action (Unit {0})
  memoize_entry t e = modify λ d. record d {
    memo_lookup_table = update_memo cfg.app_cache (d.record_of t) e d.memo_lookup_table;
  }

  -- `_record_task_outcome`
  unfoldable pub record_task_outcome : ℕ → Outcome → Action (Unit {0})
  unfolding memoize_entry prepare persist
  record_task_outcome t (raised x) = do
    e ← gets (λ d. prepare_failure cfg.app_cache (d.record_of t) x)
    memoize_entry t e
  record_task_outcome t (result r) = do
    e ← prepare t r
    k ← gets (λ d. (d.record_of t).hashsum)
    persist t cfg.checkpoint_mode e k
    memoize_entry t e

  -- The end that every task comes to: its state, the cleanup, and then the Future.
  unfoldable pub end_task : ℕ → States → Outcome → Action (Unit {0})
  unfolding update_task_state wipe_task set_app_future
  end_task t s o = do update_task_state t s; wipe_task cfg t; set_app_future t o

  -- The record, the cleanup and the Future of a task whose state is a failure already.
  unfoldable pub fail_task : ℕ → Exn → Action (Unit {0})
  fail_task t x = do record_task_outcome t (raised x); wipe_task cfg t; set_app_future t (raised x)

  -- `_complete_task`
  unfoldable pub complete_task : ℕ → States → ℕ → Action (Unit {0})
  unfolding end_task record_task_outcome
  complete_task t new r =
      if is_final new && not (is_final_failure new)
      then try_except (record_task_outcome t (result r)) (λ _. end_task t new (result r))
          (λ x. end_task t failed (raised x))
      else throw assertion_error
