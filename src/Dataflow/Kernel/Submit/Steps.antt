-- ===== src/Dataflow/Kernel/Submit/Steps.antt =====
-- Histories of the kernel of solution/dflow.py with submissions: `submit`, the handlers, the callbacks
-- that `submit` has left on the dependencies, and `cleanup`.
use talents_parsl_checkpoint.Prelude.{ℕ, ◌<◌, ◌≡◌, List, [], ◌∷◌, remove}
use talents_parsl_checkpoint.Dataflow.Errors.{ok}
use talents_parsl_checkpoint.Dataflow.Kernel.{Dfk}
use talents_parsl_checkpoint.Dataflow.Kernel.Launch.{launch_if_ready_async}
use talents_parsl_checkpoint.Dataflow.Kernel.Events.{
  Event, launch, execution, joined, task_of, handle,
}
use talents_parsl_checkpoint.Dataflow.Kernel.Submit.{
  Submission, Environment, Frontend, add_done_callback, submit, cleanup,
}

-- A call of `submit`, of a handler, or of `cleanup`.
pub data Step : Type 0 where
  submits : Submission → Step
  happens : Event → Step
  cleans : Step

-- A launch that is inspected has left the queue of launches.
unfoldable pub dequeue : Event → Dfk → Dfk
dequeue (launch t) d = record d { launch_queue = remove t d.launch_queue }
dequeue (execution t r) d = d
dequeue (joined t) d = d

-- The callbacks of the Futures that are done are called, and the others stay.
unfoldable pub fire : List (ℕ × ℕ) → Frontend → Frontend
fire [] s = s
fire ((f, t) ∷ cs) s = fire cs (add_done_callback f t s)

unfoldable pub fire_callbacks : Frontend → Frontend
fire_callbacks s = fire s.dep_callbacks (record s { dep_callbacks = [] })

unfoldable pub take_step : Environment → Step → Frontend → Frontend
take_step env (submits sub) s = (submit env sub s).1
take_step env (happens e) s = fire_callbacks (record s { dfk = handle env.cfg e (dequeue e s.dfk) })
take_step env cleans s = (cleanup env.cfg s).1

unfoldable pub take_steps : Environment → List Step → Frontend → Frontend
take_steps env [] s = s
take_steps env (x ∷ xs) s = take_steps env xs (take_step env x s)

-- The inspection of a launch does not raise.
unfoldable pub Launches : Environment → Event → Dfk → Type 0
Launches env (launch t) d = (launch_if_ready_async env.cfg t d).0 ≡ ok tt
Launches env (execution t r) d = Unit
Launches env (joined t) d = Unit

-- What happens concerns tasks that have been submitted, and no inspection of a launch raises.
unfoldable pub IsRegular : Environment → List Step → Frontend → Type 0
unfolding Launches take_step
IsRegular env [] s = Unit
IsRegular env (happens e ∷ xs) s =
    ((task_of e < s.task_count) × Launches env e (dequeue e s.dfk))
    × IsRegular env xs (take_step env (happens e) s)
IsRegular env (x ∷ xs) s = IsRegular env xs (take_step env x s)
