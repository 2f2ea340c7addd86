-- ===== src/Dataflow/Kernel/Launched.antt =====
-- What an inspection of a launch leaves of the task (solution/dflow.py, `_launch_if_ready_async`).
use talents_parsl_checkpoint.Prelude.{
  ℕ, ◌<◌, ◌==◌, ◌≡◌, ◌⊎◌, inl, inr, refl, Option, none, some, arith, Bool-cases,
}
use talents_parsl_checkpoint.Dataflow.Errors.{Causes, no_cause, cause, Result, ok, err}
use talents_parsl_checkpoint.Dataflow.States.{pending, launched}
use talents_parsl_checkpoint.Dataflow.Values.{Items, Fields}
use talents_parsl_checkpoint.Dataflow.Tasks.{TaskRecord}
use talents_parsl_checkpoint.Dataflow.Memo.{Outcome}
use talents_parsl_checkpoint.Dataflow.Kernel.{
  ExecResult, Config, Dfk, Action, pure, and_then, settle, ◌>>=◌,
}
use talents_parsl_checkpoint.Dataflow.Kernel.Publish.{update_task_state}
use talents_parsl_checkpoint.Dataflow.Kernel.Join.{status_is}
use talents_parsl_checkpoint.Dataflow.Kernel.Launch.{
  ExecFuture, finished, running, count_deps, submitted, submit_to_executor, check, launch_checked,
  launch_task, launch_unwrapped, attach, set_unwrapped, unwrap_futures, launch_ready,
  launch_if_ready_async,
}
use talents_parsl_checkpoint.Dataflow.Kernel.Settled.{IsSettled, update-Settles}
use talents_parsl_checkpoint.Dataflow.Kernel.Woken.{IsWoken, handle_exec_update-IsWoken}

module _ (cfg : Config) (t : ℕ) where
  -- If the action gives a Future that an executor will end, the task is not pending.
  record Runs (m : Action ExecFuture) : Type 0 where
    at : (d : Dfk) → (m d).0 ≡ ok running → IsSettled t (m d).1

  submitted-Runs : (answer : Result (Option ExecResult)) → Runs (submitted t answer)
  unfolding submitted update_task_state
  submitted-Runs (err x) = record { at = λ d e. cc }
  submitted-Runs (ok f) = record { at = λ d e. (update-Settles cfg t launched refl).at d }

  submit_to_executor-Runs :
      (submit : Option (TaskRecord → Result (Option ExecResult)))
      → Runs (submit_to_executor t submit)
  unfolding submit_to_executor
  submit_to_executor-Runs none = record { at = λ d e. cc }
  submit_to_executor-Runs (some submit) = record {
    at = λ d e. (submitted-Runs (submit (d.record_of t))).at d e;
  }

  launch_checked-Runs : (found : Option Outcome) → Runs (launch_checked cfg t found)
  unfolding launch_checked
  launch_checked-Runs (some o) = record { at = λ d e. cc }
  launch_checked-Runs none = record {
    at = λ d e. (submit_to_executor-Runs (cfg.executors _)).at _ e;
  }

  checked-Runs :
      (r : Result (Option Outcome)) (d : Dfk)
      → (and_then r (λ found. launch_checked cfg t found) d).0 ≡ ok running
      → IsSettled t (and_then r (λ found. launch_checked cfg t found) d).1
  checked-Runs (ok found) d e = (launch_checked-Runs found).at d e
  checked-Runs (err x) d e = cc

  launch_task-Runs : Runs (launch_task cfg t)
  unfolding launch_task
  launch_task-Runs = record { at = λ d e. checked-Runs (check cfg t d).0 (check cfg t d).1 e }

  attach-IsWoken :
      (f : ExecFuture) (d : Dfk) → (f ≡ running → IsSettled t d) → IsWoken t (attach cfg t f d).1
  unfolding attach
  attach-IsWoken running d h = inl (record { state = (h refl).state })
  attach-IsWoken (finished r) d h = handle_exec_update-IsWoken cfg t r d

  tried-IsWoken :
      (r : Result ExecFuture) (d : Dfk)
      → (r ≡ ok running → IsSettled t d)
      → IsWoken t
          ((settle r (λ f. pure f) (λ x. pure (finished (ExecResult.excepted x))) >>= attach cfg t)
            d).1
  tried-IsWoken (ok f) d h = attach-IsWoken f d (λ e. h (rw e refl))
  tried-IsWoken (err x) d h = attach-IsWoken (finished (ExecResult.excepted x)) d (λ e. cc)

  launch_unwrapped-IsWoken :
      (cs : Causes) (d : Dfk) → IsWoken t ((launch_unwrapped cfg t cs >>= attach cfg t) d).1
  unfolding launch_unwrapped attach update_task_state
  launch_unwrapped-IsWoken no_cause d =
      tried-IsWoken (launch_task cfg t d).0 (launch_task cfg t d).1 (launch_task-Runs.at d)
  launch_unwrapped-IsWoken (cause x tid more) d = attach-IsWoken (finished _) _ (λ e. cc)

  unwrapped-IsWoken :
      (new : Result (Items × Causes) × Fields) (d : Dfk)
      → ((set_unwrapped cfg t new >>= λ cs. launch_unwrapped cfg t cs >>= attach cfg t) d).0 ≡ ok tt
      → IsWoken t
          ((set_unwrapped cfg t new >>= λ cs. launch_unwrapped cfg t cs >>= attach cfg t) d).1
  unfolding set_unwrapped
  unwrapped-IsWoken (err x, kwargs) d e = cc
  unwrapped-IsWoken (ok (args, cs), kwargs) d e = launch_unwrapped-IsWoken cs _

  launch_ready-IsWoken :
      (d : Dfk) → (launch_ready cfg t d).0 ≡ ok tt → IsWoken t (launch_ready cfg t d).1
  unfolding launch_ready
  launch_ready-IsWoken d e =
      unwrapped-IsWoken (unwrap_futures cfg d (d.record_of t).args (d.record_of t).kwargs) d e

  -- If the inspection does not raise: it leaves all as it is, and the task has a dependency that is not
  -- done, or after it the task is not pending or its launch is queued again.
  pub launch_if_ready_async-IsWoken :
      (d : Dfk)
      → (launch_if_ready_async cfg t d).0 ≡ ok tt
      → IsWoken t (launch_if_ready_async cfg t d).1
        ⊎ (((launch_if_ready_async cfg t d).1 ≡ d) × (0 < count_deps d (d.record_of t).depends))
  unfolding launch_if_ready_async
  launch_if_ready_async-IsWoken d = elim (Bool-cases (status_is (d.record_of t).status pending)) [
    | inr settled ↦ rw settled (λ e. inl (inl (record { state = settled })))
    | inl waits ↦ elim (Bool-cases (count_deps d (d.record_of t).depends == 0)) [
      | inl ready ↦ rw (waits, ready) (λ e. inl (launch_ready-IsWoken d e))
      | inr held ↦ rw (waits, held) (λ e. inr (refl, ground arith))
    ]
  ]
