-- ===== src/Dataflow/Kernel/Update.antt =====
-- solution/dflow.py, `handle_exec_update`: an execution attempt has ended.
use talents_parsl_checkpoint.Prelude.{
  ℕ, ◌+◌, Bool, true, false, Option, none, some, List, [], ◌∷◌, ◌++◌, leb, if◌then◌else◌,
}
use talents_parsl_checkpoint.Dataflow.Errors.{
  Exn, internal_consistency, type_error, Result, ok, err,
}
use talents_parsl_checkpoint.Dataflow.States.{
  pending, dep_fail, fail_retryable, failed, memo_done, exec_done, joining,
}
use talents_parsl_checkpoint.Dataflow.Values.{Value, Items, list, future, nil, cons}
use talents_parsl_checkpoint.Dataflow.Tasks.{TaskRecord, Joinable, one, many}
use talents_parsl_checkpoint.Dataflow.Kernel.{
  ExecResult, returned, wrapped, excepted, Config, Action, pure, throw, gets, dropping, modify,
  ◌>>=◌, ◌>>◌,
}
use talents_parsl_checkpoint.Dataflow.Kernel.Publish.{
  set_record, update_task_state, fail_task, complete_task,
}
use talents_parsl_checkpoint.Dataflow.Kernel.Join.{status_is, is_done, handle_join_update}

unfoldable pub charge_answer : Config → ℕ → Exn → Result ℕ → Action Exn
charge_answer cfg t x (ok cost) = do
  modify (set_record t λ task. record task { fail_cost = task.fail_cost + cost })
  pure x
charge_answer cfg t x (err y) = do
  modify (set_record t λ task. record task { fail_cost = cfg.retries + 1 })
  pure y

-- The cost of a failure, and the exception that is reported: the retry handler's own if it raises.
unfoldable pub charge : Config → ℕ → Exn → Option (Exn → TaskRecord → Result ℕ) → Action Exn
charge cfg t x none = do
  modify (set_record t λ task. record task { fail_cost = task.fail_cost + 1 })
  pure x
charge cfg t x (some handler) = do
  answer ← gets (λ d. handler x (d.record_of t))
  charge_answer cfg t x answer

unfoldable pub retry_task : ℕ → Action (Unit {0})
retry_task t = do
  update_task_state t fail_retryable
  modify (set_record t λ task. record task { try_id = task.try_id + 1 })
  update_task_state t pending
  modify (set_record t λ task. record task { fail_history = [] })

unfoldable pub settle_failure : Config → ℕ → Exn → TaskRecord → Action (Unit {0})
settle_failure cfg t x task =
    if status_is task.status dep_fail
    then fail_task cfg t x
    else if leb task.fail_cost cfg.retries
    then retry_task t
    else (do update_task_state t failed; fail_task cfg t x)

-- `fail_history.append(…)` and `fail_count += 1`
unfoldable pub note_failure : ℕ → Exn → Action (Unit {0})
note_failure t x = modify (
    set_record t λ task. record task {
      fail_history = task.fail_history ++ x ∷ [];
      fail_count = task.fail_count + 1;
    })

unfoldable pub settle_charged : Config → ℕ → Exn → Action (Unit {0})
settle_charged cfg t x = do task ← gets (λ d. d.record_of t); settle_failure cfg t x task

unfoldable pub handle_failure : Config → ℕ → Exn → Action (Unit {0})
handle_failure cfg t x = do
  note_failure t x
  y ← charge cfg t x cfg.retry_handler
  settle_charged cfg t y

-- The IDs of a list of Futures.
future_ids : Items → Option (List ℕ)
future_ids nil = some []
future_ids (cons (future f) xs) = elim (future_ids xs) [ none ↦ none | some fs ↦ some (f ∷ fs) ]
future_ids (cons v xs) = none

-- A Future, or a list of Futures, which may be empty.
pub joinable_of : Value → Option Joinable
unfolding future_ids
joinable_of (future f) = some (one f)
joinable_of (list xs) = elim (future_ids xs) [ none ↦ none | some fs ↦ some (many fs) ]
joinable_of v = none

-- `add_done_callback`: at once if the Future is done, and then an exception of the callback is
-- logged and dropped.
unfoldable pub register : ℕ → ℕ → Action (Unit {0})
register f t = modify (λ d. record d { join_callbacks = d.join_callbacks ++ (f, t) ∷ [] })

unfoldable pub listen : Config → ℕ → ℕ → Action (Unit {0})
listen cfg t f = do
  d ← gets (λ d. d)
  if is_done d f then dropping (handle_join_update cfg t) else register f t

unfoldable pub listen_all : Config → ℕ → List ℕ → Action (Unit {0})
listen_all cfg t [] = pure tt
listen_all cfg t (f ∷ fs) = do listen cfg t f; listen_all cfg t fs

unfoldable pub start_listening : Config → ℕ → Joinable → Action (Unit {0})
start_listening cfg t (one f) = listen cfg t f
start_listening cfg t (many []) = handle_join_update cfg t
start_listening cfg t (many (f ∷ fs)) = listen_all cfg t (f ∷ fs)

unfoldable pub handle_join_body : Config → ℕ → Option Joinable → Action (Unit {0})
handle_join_body cfg t (some js) = do
  update_task_state t joining
  modify (set_record t λ task. record task { joins = some js })
  start_listening cfg t js
handle_join_body cfg t none = do update_task_state t failed; fail_task cfg t type_error

unfoldable pub handle_body : Config → ℕ → ℕ → Bool → Action (Unit {0})
handle_body cfg t r true = do
  v ← gets (λ d. d.heap.content r)
  handle_join_body cfg t (joinable_of v)
handle_body cfg t r false = complete_task cfg t exec_done r

-- `if task_record['from_memo']`, which is None before the first launch.
abbrev pub is_true : Option Bool → Bool
is_true (some b) = b
is_true none = false

unfoldable pub handle_success : Config → ℕ → ℕ → TaskRecord → Action (Unit {0})
handle_success cfg t r task =
    if is_true task.from_memo
    then complete_task cfg t memo_done r
    else handle_body cfg t r task.join

-- `_unwrap_remote_exception_wrapper`, and the two branches on it.
unfoldable pub handle_result : Config → ℕ → ExecResult → Action (Unit {0})
handle_result cfg t (returned r) = do task ← gets (λ d. d.record_of t); handle_success cfg t r task
handle_result cfg t (wrapped x) = handle_failure cfg t x
handle_result cfg t (excepted x) = handle_failure cfg t x

-- `launch_if_ready` only queues the task.
unfoldable pub launch_if_ready : ℕ → Action (Unit {0})
launch_if_ready t = modify (λ d. record d { launch_queue = d.launch_queue ++ t ∷ [] })

unfoldable pub relaunch_pending : ℕ → Action (Unit {0})
relaunch_pending t = do
  task ← gets (λ d. d.record_of t)
  if status_is task.status pending then launch_if_ready t else pure tt

-- `none` is a Future that is not done.
unfoldable pub handle_exec_update : Config → ℕ → Option ExecResult → Action (Unit {0})
handle_exec_update cfg t none = throw internal_consistency
handle_exec_update cfg t (some r) = do handle_result cfg t r; relaunch_pending t
