-- ===== src/Dataflow/Kernel/Events.antt =====
-- Histories of the kernel of solution/dflow.py: any sequence of calls of its handlers.
use talents_parsl_checkpoint.Prelude.{ℕ, some, List, [], ◌∷◌}
use talents_parsl_checkpoint.Dataflow.Kernel.{ExecResult, Config, Dfk}
use talents_parsl_checkpoint.Dataflow.Kernel.Handlers.{
  IsStable, launch-Keeps, handle_exec_update-Keeps, handle_join_update-Keeps,
}
use talents_parsl_checkpoint.Dataflow.Kernel.Join.{handle_join_update}
use talents_parsl_checkpoint.Dataflow.Kernel.Update.{handle_exec_update}
use talents_parsl_checkpoint.Dataflow.Kernel.Launch.{launch_if_ready_async}

-- What can happen to the kernel: a launch is inspected, an executor's Future ends, a Future that a
-- join task listens on becomes done.
pub data Event : Type 0 where
  launch : ℕ → Event
  execution : ℕ → ExecResult → Event
  joined : ℕ → Event

-- The task that an event is about.
unfoldable pub task_of : Event → ℕ
task_of (launch t) = t
task_of (execution t r) = t
task_of (joined t) = t

unfoldable pub handle : Config → Event → Dfk → Dfk
handle cfg (launch t) d = (launch_if_ready_async cfg t d).1
handle cfg (execution t r) d = (handle_exec_update cfg t (some r) d).1
handle cfg (joined t) d = (handle_join_update cfg t d).1

pub handle_all : Config → List Event → Dfk → Dfk
handle_all cfg [] d = d
handle_all cfg (e ∷ es) d = handle_all cfg es (handle cfg e d)

-- What the parts of the handlers leave true, any history leaves true.
pub handle-Keeps :
    (cfg : Config) (e : Event) (P : Dfk → Type 0)
    → IsStable cfg (task_of e) P
    → (d : Dfk) → P d
    → P (handle cfg e d)
unfolding handle task_of
handle-Keeps cfg (launch t) P stable d h = (launch-Keeps cfg t P stable).at d h
handle-Keeps cfg (execution t r) P stable d h =
    (handle_exec_update-Keeps cfg t P stable (some r)).at d h
handle-Keeps cfg (joined t) P stable d h = (handle_join_update-Keeps cfg t P stable.ends).at d h

module _ (cfg : Config) (P : Dfk → Type 0) (stable : (t : ℕ) → IsStable cfg t P) where
  pub handle_all-Keeps : (es : List Event) (d : Dfk) → P d → P (handle_all cfg es d)
  unfolding handle_all
  handle_all-Keeps [] d h = h
  handle_all-Keeps (e ∷ es) d h =
      handle_all-Keeps es (handle cfg e d) (handle-Keeps cfg e P (stable (task_of e)) d h)
