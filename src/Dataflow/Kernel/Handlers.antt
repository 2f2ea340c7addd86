-- ===== src/Dataflow/Kernel/Handlers.antt =====
-- What the handlers of solution/dflow.py leave true, from what their parts do: `handle_join_update`,
-- `handle_exec_update` and `_launch_if_ready_async`.
use talents_parsl_checkpoint.Prelude.{
  ℕ, ◌≡◌, Bool, true, false, Option, none, some, List, [], ◌∷◌, ◌++◌, arith,
}
use talents_parsl_checkpoint.Dataflow.Errors.{
  type_error, Exn, Causes, no_cause, cause, Result, ok, err,
}
use talents_parsl_checkpoint.Dataflow.States.{States, failed, exec_done}
use talents_parsl_checkpoint.Dataflow.Tasks.{TaskRecord, Joinable, one, many}
use talents_parsl_checkpoint.Dataflow.Memo.Memoizer.{check_memo-IsRehashed}
use talents_parsl_checkpoint.Dataflow.Memo.{Outcome}
use talents_parsl_checkpoint.Dataflow.Kernel.{
  ExecResult, returned, wrapped, excepted, Config, Dfk, update, modify, ◌>>◌,
}
use talents_parsl_checkpoint.Dataflow.Kernel.Keeps.{Keeps, Keeps-bind, keeps_rules}
use talents_parsl_checkpoint.Dataflow.Kernel.Publish.{
  complete_task, set_record, update_task_state, fail_task,
}
use talents_parsl_checkpoint.Dataflow.Kernel.Join.{
  join_result, join_causes, join_ready, handle_join_update,
}
use talents_parsl_checkpoint.Dataflow.Values.{Heap, Items, Fields}
use talents_parsl_checkpoint.Dataflow.Kernel.Launch.{
  ExecFuture, finished, running, submitted, submit_to_executor, check, launch_checked, launch_task,
  launch_unwrapped, attach, set_unwrapped, launch_ready, launch_if_ready_async,
}
use talents_parsl_checkpoint.Dataflow.Kernel.Update.{
  register, launch_if_ready, handle_failure, listen, listen_all, start_listening, handle_body,
  handle_join_body, handle_success, handle_result, relaunch_pending, handle_exec_update,
}

-- The parts of the handlers that end the task t, or wait for the Futures that it joins, leave P true.
-- A change of its record keeps the state and the dependencies, and what retries are counted with.
pub record IsEnding (cfg : Config) (t : ℕ) (P : Dfk → Type 0) : Type 0 where
  pub sets :
      (task : TaskRecord) (d : Dfk)
      → task.try_id ≡ (d.record_of t).try_id
      → task.fail_cost ≡ (d.record_of t).fail_cost
      → task.status ≡ (d.record_of t).status
      → task.depends ≡ (d.record_of t).depends
      → P d
      → P (record d { record_of = update d.record_of t task })
  pub completes : (s : States) (r : ℕ) → Keeps P (complete_task cfg t s r)
  pub fails : (x : Exn) → Keeps P (update_task_state t failed >> fail_task cfg t x)
  pub allocates : (d : Dfk) (h : Heap) → P d → P (record d { heap = h })
  pub registers : (d : Dfk) (js : List (ℕ × ℕ)) → P d → P (record d { join_callbacks = js })

-- So do the other parts: a new state, the handling of a failure, the queue of launches, and the
-- executors' Futures.
pub record IsStable (cfg : Config) (t : ℕ) (P : Dfk → Type 0) : Type 0 where
  pub ends : IsEnding cfg t P
  pub updates : (s : States) → Keeps P (update_task_state t s)
  pub handles_failure : (x : Exn) → Keeps P (handle_failure cfg t x)
  pub queues : (d : Dfk) → P d → P (record d { launch_queue = d.launch_queue ++ t ∷ [] })
  pub runs : (d : Dfk) (ts : List ℕ) → P d → P (record d { outstanding = ts })

module _ (cfg : Config) (t : ℕ) (P : Dfk → Type 0) (ends : IsEnding cfg t P) where
  pub set-Keeps :
      (f : TaskRecord → TaskRecord)
      → ((task : TaskRecord) → (f task).try_id ≡ task.try_id)
      → ((task : TaskRecord) → (f task).fail_cost ≡ task.fail_cost)
      → ((task : TaskRecord) → (f task).status ≡ task.status)
      → ((task : TaskRecord) → (f task).depends ≡ task.depends)
      → Keeps P (modify (set_record t f))
  set-Keeps f tries cost state depends = record {
    at = λ d h.
        ends.sets (f (d.record_of t)) d (tries (d.record_of t)) (cost (d.record_of t))
          (state (d.record_of t)) (depends (d.record_of t)) h;
  }

  pub complete_task-Keeps : (s : States) (r : ℕ) → Keeps P (complete_task cfg t s r)
  complete_task-Keeps = ends.completes

  pub fail-Keeps : (x : Exn) → Keeps P (update_task_state t failed >> fail_task cfg t x)
  fail-Keeps = ends.fails

  join_result-Keeps : (js : Joinable) → Keeps P (join_result js)
  unfolding join_result
  join_result-Keeps (one f) = record { at = λ d h. ground arith }
  join_result-Keeps (many fs) = record { at = λ d h. ends.allocates d _ h }

  join_causes-Keeps : (js : Joinable) (cs : Causes) → Keeps P (join_causes cfg t js cs)
  unfolding join_causes
  join_causes-Keeps js no_cause = search (keeps_rules, join_result-Keeps, complete_task-Keeps)
  join_causes-Keeps js (cause x tid more) = search (keeps_rules, set-Keeps, fail-Keeps)

  join_ready-Keeps : (js : Option Joinable) → Keeps P (join_ready cfg t js)
  unfolding join_ready
  join_ready-Keeps none = search keeps_rules
  join_ready-Keeps (some js) = search (keeps_rules, join_causes-Keeps)

  pub handle_join_update-Keeps : Keeps P (handle_join_update cfg t)
  unfolding handle_join_update
  handle_join_update-Keeps = search (keeps_rules, join_ready-Keeps)

  register-Keeps : (f : ℕ) → Keeps P (register f t)
  unfolding register
  register-Keeps f = record { at = λ d h. ends.registers d _ h }

  listen-Keeps : (f : ℕ) → Keeps P (listen cfg t f)
  unfolding listen
  listen-Keeps f = search (keeps_rules, handle_join_update-Keeps, register-Keeps)

  listen_all-Keeps : (fs : List ℕ) → Keeps P (listen_all cfg t fs)
  unfolding listen_all
  listen_all-Keeps [] = search keeps_rules
  listen_all-Keeps (f ∷ fs) =
      Keeps-bind (listen cfg t f) (λ _. listen_all cfg t fs) (listen-Keeps f)
        (λ _. listen_all-Keeps fs)

  pub start_listening-Keeps : (js : Joinable) → Keeps P (start_listening cfg t js)
  unfolding start_listening
  start_listening-Keeps (one f) = listen-Keeps f
  start_listening-Keeps (many []) = handle_join_update-Keeps
  start_listening-Keeps (many (f ∷ fs)) = listen_all-Keeps (f ∷ fs)

module _ (cfg : Config) (t : ℕ) (P : Dfk → Type 0) (stable : IsStable cfg t P) where
  update-Keeps : (s : States) → Keeps P (update_task_state t s)
  update-Keeps = stable.updates

  handle_failure-Keeps : (x : Exn) → Keeps P (handle_failure cfg t x)
  handle_failure-Keeps = stable.handles_failure

  change-Keeps :
      (f : TaskRecord → TaskRecord)
      → ((task : TaskRecord) → (f task).try_id ≡ task.try_id)
      → ((task : TaskRecord) → (f task).fail_cost ≡ task.fail_cost)
      → ((task : TaskRecord) → (f task).status ≡ task.status)
      → ((task : TaskRecord) → (f task).depends ≡ task.depends)
      → Keeps P (modify (set_record t f))
  change-Keeps = set-Keeps cfg t P stable.ends

  listening-Keeps : (js : Joinable) → Keeps P (start_listening cfg t js)
  listening-Keeps = start_listening-Keeps cfg t P stable.ends

  completing-Keeps : (s : States) (r : ℕ) → Keeps P (complete_task cfg t s r)
  completing-Keeps = stable.ends.completes

  handle_join_body-Keeps : (js : Option Joinable) → Keeps P (handle_join_body cfg t js)
  unfolding handle_join_body
  handle_join_body-Keeps (some js) =
      search (keeps_rules, update-Keeps, change-Keeps, listening-Keeps)
  handle_join_body-Keeps none = stable.ends.fails type_error

  handle_body-Keeps : (r : ℕ) (join : Bool) → Keeps P (handle_body cfg t r join)
  unfolding handle_body
  handle_body-Keeps r true = search (keeps_rules, handle_join_body-Keeps)
  handle_body-Keeps r false = completing-Keeps exec_done r

  handle_success-Keeps : (r : ℕ) (task : TaskRecord) → Keeps P (handle_success cfg t r task)
  unfolding handle_success
  handle_success-Keeps r task = search (keeps_rules, handle_body-Keeps, completing-Keeps)

  handle_result-Keeps : (r : ExecResult) → Keeps P (handle_result cfg t r)
  unfolding handle_result
  handle_result-Keeps (returned r) = search (keeps_rules, handle_success-Keeps)
  handle_result-Keeps (wrapped x) = handle_failure-Keeps x
  handle_result-Keeps (excepted x) = handle_failure-Keeps x

  launch_if_ready-Keeps : Keeps P (launch_if_ready t)
  unfolding launch_if_ready
  launch_if_ready-Keeps = record { at = λ d h. stable.queues d h }

  relaunch-Keeps : Keeps P (relaunch_pending t)
  unfolding relaunch_pending
  relaunch-Keeps = search (keeps_rules, launch_if_ready-Keeps)

  pub handle_exec_update-Keeps : (r : Option ExecResult) → Keeps P (handle_exec_update cfg t r)
  unfolding handle_exec_update
  handle_exec_update-Keeps none = search keeps_rules
  handle_exec_update-Keeps (some r) = search (keeps_rules, handle_result-Keeps, relaunch-Keeps)

  submitted-Keeps : (answer : Result (Option ExecResult)) → Keeps P (submitted t answer)
  unfolding submitted
  submitted-Keeps (err x) = search keeps_rules
  submitted-Keeps (ok f) = search (keeps_rules, update-Keeps)

  submit_to_executor-Keeps :
      (submit : Option (TaskRecord → Result (Option ExecResult)))
      → Keeps P (submit_to_executor t submit)
  unfolding submit_to_executor
  submit_to_executor-Keeps none = search keeps_rules
  submit_to_executor-Keeps (some submit) = search (keeps_rules, submitted-Keeps)

  check-Keeps : Keeps P (check cfg t)
  unfolding check
  check-Keeps = record {
    at = λ d h.
        let same =
          check_memo-IsRehashed cfg.rt cfg.app_cache (d.record_of t) d.memo_lookup_table d.heap in
        stable.ends.allocates (record d { record_of = update d.record_of t _ }) _
          (stable.ends.sets _ d same.tries same.cost same.state same.depends h);
  }

  launch_checked-Keeps : (found : Option Outcome) → Keeps P (launch_checked cfg t found)
  unfolding launch_checked
  launch_checked-Keeps (some o) = search (keeps_rules, change-Keeps)
  launch_checked-Keeps none = search (keeps_rules, change-Keeps, submit_to_executor-Keeps)

  launch_task-Keeps : Keeps P (launch_task cfg t)
  unfolding launch_task
  launch_task-Keeps = search (keeps_rules, check-Keeps, launch_checked-Keeps)

  launch_unwrapped-Keeps : (cs : Causes) → Keeps P (launch_unwrapped cfg t cs)
  unfolding launch_unwrapped
  launch_unwrapped-Keeps no_cause = search (keeps_rules, launch_task-Keeps)
  launch_unwrapped-Keeps (cause x tid more) = search (keeps_rules, update-Keeps)

  attach-Keeps : (f : ExecFuture) → Keeps P (attach cfg t f)
  unfolding attach
  attach-Keeps running = record { at = λ d h. stable.runs d _ h }
  attach-Keeps (finished r) = search (keeps_rules, handle_exec_update-Keeps)

  set_unwrapped-Keeps : (new : Result (Items × Causes) × Fields) → Keeps P (set_unwrapped cfg t new)
  unfolding set_unwrapped
  set_unwrapped-Keeps (err x, kwargs) = search (keeps_rules, change-Keeps)
  set_unwrapped-Keeps (ok (args, cs), kwargs) = search (keeps_rules, change-Keeps)

  launch_ready-Keeps : Keeps P (launch_ready cfg t)
  unfolding launch_ready
  launch_ready-Keeps =
      search (keeps_rules, set_unwrapped-Keeps, launch_unwrapped-Keeps, attach-Keeps)

  pub launch-Keeps : Keeps P (launch_if_ready_async cfg t)
  unfolding launch_if_ready_async
  launch-Keeps = search (keeps_rules, launch_ready-Keeps)
