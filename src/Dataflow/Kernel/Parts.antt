-- ===== src/Dataflow/Kernel/Parts.antt =====
-- What the handlers of solution/dflow.py leave true, from what their smallest parts do.
use talents_parsl_checkpoint.Prelude.{ℕ, ◌≡◌, Option, none, some, List, [], ◌∷◌, ◌++◌}
use talents_parsl_checkpoint.Dataflow.Errors.{Exn, Result, ok, err}
use talents_parsl_checkpoint.Dataflow.States.{States, failed}
use talents_parsl_checkpoint.Dataflow.Values.{Heap}
use talents_parsl_checkpoint.Dataflow.Tasks.{TaskRecord}
use talents_parsl_checkpoint.Dataflow.Memo.{Outcome}
use talents_parsl_checkpoint.Dataflow.Kernel.{Config, Dfk, update, modify, ◌>>◌}
use talents_parsl_checkpoint.Dataflow.Kernel.Keeps.{Keeps, keeps_rules}
use talents_parsl_checkpoint.Dataflow.Kernel.Handlers.{IsStable}
use talents_parsl_checkpoint.Dataflow.Kernel.Publish.{
  set_record, update_task_state, wipe_task, set_app_future, record_task_outcome, end_task,
  complete_task, fail_task,
}
use talents_parsl_checkpoint.Dataflow.Kernel.Update.{
  note_failure, charge, charge_answer, retry_task, settle_failure, settle_charged, handle_failure,
}

-- The smallest parts of the handlers of the task t leave P true. A change of its record keeps the
-- state and the dependencies.
pub record IsKept (cfg : Config) (t : ℕ) (P : Dfk → Type 0) : Type 0 where
  pub updates : (s : States) → Keeps P (update_task_state t s)
  pub changes :
      (task : TaskRecord) (d : Dfk)
      → task.status ≡ (d.record_of t).status
      → task.depends ≡ (d.record_of t).depends
      → P d
      → P (record d { record_of = update d.record_of t task })
  pub outcomes : (o : Outcome) → Keeps P (record_task_outcome cfg t o)
  pub wipes : Keeps P (wipe_task cfg t)
  pub publishes : (o : Outcome) → Keeps P (set_app_future t o)
  pub allocates : (d : Dfk) (h : Heap) → P d → P (record d { heap = h })
  pub registers : (d : Dfk) (js : List (ℕ × ℕ)) → P d → P (record d { join_callbacks = js })
  pub queues : (d : Dfk) → P d → P (record d { launch_queue = d.launch_queue ++ t ∷ [] })
  pub runs : (d : Dfk) (ts : List ℕ) → P d → P (record d { outstanding = ts })

module _ (cfg : Config) (t : ℕ) (P : Dfk → Type 0) (kept : IsKept cfg t P) where
  update-Keeps : (s : States) → Keeps P (update_task_state t s)
  update-Keeps = kept.updates

  outcome-Keeps : (o : Outcome) → Keeps P (record_task_outcome cfg t o)
  outcome-Keeps = kept.outcomes

  wipe-Keeps : Keeps P (wipe_task cfg t)
  wipe-Keeps = kept.wipes

  publish-Keeps : (o : Outcome) → Keeps P (set_app_future t o)
  publish-Keeps = kept.publishes

  change-Keeps :
      (f : TaskRecord → TaskRecord)
      → ((task : TaskRecord) → (f task).status ≡ task.status)
      → ((task : TaskRecord) → (f task).depends ≡ task.depends)
      → Keeps P (modify (set_record t f))
  change-Keeps f state depends = record {
    at = λ d h.
        kept.changes (f (d.record_of t)) d (state (d.record_of t)) (depends (d.record_of t)) h;
  }

  pub fail_task-Keeps : (x : Exn) → Keeps P (fail_task cfg t x)
  unfolding fail_task
  fail_task-Keeps x = search (keeps_rules, outcome-Keeps, wipe-Keeps, publish-Keeps)

  fails-Keeps : (x : Exn) → Keeps P (update_task_state t failed >> fail_task cfg t x)
  fails-Keeps x = search (keeps_rules, update-Keeps, fail_task-Keeps)

  end_task-Keeps : (s : States) (o : Outcome) → Keeps P (end_task cfg t s o)
  unfolding end_task
  end_task-Keeps s o = search (keeps_rules, update-Keeps, wipe-Keeps, publish-Keeps)

  complete_task-Keeps : (s : States) (r : ℕ) → Keeps P (complete_task cfg t s r)
  unfolding complete_task
  complete_task-Keeps s r = search (keeps_rules, outcome-Keeps, end_task-Keeps)

  charge_answer-Keeps : (x : Exn) (answer : Result ℕ) → Keeps P (charge_answer cfg t x answer)
  unfolding charge_answer
  charge_answer-Keeps x (ok cost) = search (keeps_rules, change-Keeps)
  charge_answer-Keeps x (err y) = search (keeps_rules, change-Keeps)

  pub charge-Keeps :
      (x : Exn) (handler : Option (Exn → TaskRecord → Result ℕ)) → Keeps P (charge cfg t x handler)
  unfolding charge
  charge-Keeps x none = search (keeps_rules, change-Keeps)
  charge-Keeps x (some handler) = search (keeps_rules, charge_answer-Keeps)

  retry_task-Keeps : Keeps P (retry_task t)
  unfolding retry_task
  retry_task-Keeps = search (keeps_rules, change-Keeps, update-Keeps)

  settle_failure-Keeps : (x : Exn) (task : TaskRecord) → Keeps P (settle_failure cfg t x task)
  unfolding settle_failure
  settle_failure-Keeps x task = search (keeps_rules, fail_task-Keeps, retry_task-Keeps, fails-Keeps)

  note_failure-Keeps : (x : Exn) → Keeps P (note_failure t x)
  unfolding note_failure
  note_failure-Keeps x = search (keeps_rules, change-Keeps)

  settle_charged-Keeps : (x : Exn) → Keeps P (settle_charged cfg t x)
  unfolding settle_charged
  settle_charged-Keeps x = search (keeps_rules, settle_failure-Keeps)

  handle_failure-Keeps : (x : Exn) → Keeps P (handle_failure cfg t x)
  unfolding handle_failure
  handle_failure-Keeps x =
      search (keeps_rules, note_failure-Keeps, charge-Keeps, settle_charged-Keeps)

  pub IsKept-IsStable : IsStable cfg t P
  IsKept-IsStable = record {
    ends = record {
      sets = λ task d tries cost state depends h. kept.changes task d state depends h;
      completes = complete_task-Keeps;
      fails = fails-Keeps;
      allocates = kept.allocates;
      registers = kept.registers;
    };
    updates = update-Keeps;
    handles_failure = handle_failure-Keeps;
    queues = kept.queues;
    runs = kept.runs;
  }
