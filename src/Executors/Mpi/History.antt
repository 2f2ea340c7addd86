-- ===== src/Executors/Mpi/History.antt =====
-- Histories of the scheduler: tasks come and results come back
-- (environment/parsl/executors/high_throughput/mpi_resource_management.py).
use talents_parsl_checkpoint.Prelude.{
  ℕ, zero, suc, ◌+◌, ◌≡◌, refl, sym, ap, ◌∙◌, String, some, List, [], ◌∷◌, length, length-append,
  Option-cases, inl, inr, ◌≤◌, All,
}
use mathlib.Core.Path.{subst}
use talents_parsl_checkpoint.Prelude.Sorting.{IsAscending}
use talents_parsl_checkpoint.Executors.Mpi.{
  Package, PrioritizedTask, priority_of, Scheduler, return_nodes, put_task, schedule_from,
  schedule_backlog_tasks, relinquish, get_result, nodes_for,
}
use talents_parsl_checkpoint.Executors.Mpi.Nodes.{
  IsCounted, IsWaiting, put_task-IsCounted, nodes_needed, schedule_backlog_tasks_total,
}

-- A task is put, a result gives its nodes back, and a call of `_schedule_backlog_tasks` takes the first
-- task of the backlog and puts it again. Each call of the recursion is a step of its own, so that no
-- depth has to be given; the requests may come in any order, also between two calls.
pub data Step (s : Scheduler) : Scheduler → Type 0 where
  puts : (p : Package) → Step s (put_task p s)
  returns :
      (t : ℕ) (nodes : List String)
      → nodes_for t s.map_tasks_to_nodes ≡ some nodes
      → Step s (return_nodes nodes s)
  reschedules :
      (p : PrioritizedTask) (ps : List PrioritizedTask)
      → s.backlog_queue ≡ p ∷ ps
      → Step s (put_task p.task (record s { backlog_queue = ps }))

pub data Steps (s : Scheduler) : Scheduler → Type 0 where
  done : Steps s s
  step : {t u : Scheduler} → Steps s t → Step t u → Steps s u

return_nodes-IsCounted :
    (nodes : List String) (s : Scheduler) → IsCounted s → IsCounted (return_nodes nodes s)
unfolding return_nodes
return_nodes-IsCounted nodes s h = record {
  counter = ap (λ c. c + length nodes) h.counter ∙ sym (length-append s.nodes_q nodes);
  ordered = h.ordered;
  waiting = h.waiting;
}

Step-IsCounted : (s t : Scheduler) → Step s t → IsCounted s → IsCounted t
unfolding IsAscending
Step-IsCounted s t (Step.puts p) h = put_task-IsCounted p s h
Step-IsCounted s t (Step.returns id nodes known) h = return_nodes-IsCounted nodes s h
Step-IsCounted s t (Step.reschedules p ps there) h =
    put_task-IsCounted p.task (record s { backlog_queue = ps })
      (record {
        counter = h.counter;
        ordered = (subst (IsAscending priority_of) there h.ordered).1;
        waiting = (subst (All IsWaiting) there h.waiting).1;
      })

-- Whatever requests come, in any order, and however often the scheduler has called itself: the counter
-- of the free nodes is the number of nodes in the queue, the backlog is in the order of the numbers of
-- nodes that its tasks wait for, and each of these is the number that the task asks for, and not 0.
pub Steps-IsCounted : (s t : Scheduler) → Steps s t → IsCounted s → IsCounted t
Steps-IsCounted s t (Steps.done) h = h
Steps-IsCounted s u (Steps.step {t = t} before last) h =
    Step-IsCounted t u last (Steps-IsCounted s t before h)

Steps-schedule_from :
    (fuel : ℕ) (ps : List PrioritizedTask) (s t u : Scheduler)
    → t.backlog_queue ≡ ps
    → schedule_from fuel ps t ≡ some u
    → Steps s t
    → Steps s u
unfolding schedule_from
Steps-schedule_from zero ps s t u there e before = cc
Steps-schedule_from (suc fuel) [] s t u there e before =
    let same : t ≡ u = cc in subst (Steps s) same before
Steps-schedule_from (suc fuel) (p ∷ ps) s t u there e before =
    let next = put_task p.task (record t { backlog_queue = ps }) in
    Steps-schedule_from fuel next.backlog_queue s next u refl e
      (Steps.step before (Step.reschedules p ps there))

-- A result that is got is such a sequence of steps.
pub get_result-Steps : (fuel t : ℕ) (s u : Scheduler) → get_result fuel t s ≡ some u → Steps s u
unfolding get_result relinquish schedule_backlog_tasks
get_result-Steps fuel t s u e = elim (Option-cases (nodes_for t s.map_tasks_to_nodes)) [
  | inl unknown ↦ cc (rw (unknown, relinquish) at e)
  | inr (nodes, known) ↦
      let freed = return_nodes nodes s in
      Steps-schedule_from fuel freed.backlog_queue s freed u refl (rw (known, relinquish) at e)
        (Steps.step Steps.done (Step.returns t nodes known))
]

-- For a scheduler that is counted in this way, and the result of a task that holds nodes: if these and
-- the free nodes are enough for all of the backlog together, the result is got, with one call of the
-- recursion more than there were tasks in the backlog. Then the backlog is empty, the free nodes are
-- more by those of the task and fewer by what the backlog needed, and the scheduler is counted again.
pub get_result_total :
    (t : ℕ) (nodes : List String) (s : Scheduler)
    → IsCounted s
    → nodes_for t s.map_tasks_to_nodes ≡ some nodes
    → nodes_needed s.backlog_queue ≤ s.free_node_counter + length nodes
    → (u : Scheduler) × (get_result (suc (length s.backlog_queue)) t s ≡ some u)
      × (u.backlog_queue ≡ [])
      × (u.free_node_counter + nodes_needed s.backlog_queue ≡ s.free_node_counter + length nodes)
      × IsCounted u
unfolding get_result relinquish return_nodes
get_result_total t nodes s h known fits =
    let (u, runs, drained, count) =
      schedule_backlog_tasks_total (return_nodes nodes s) h.waiting fits in
    let got = ap (λ o. relinquish (suc (length s.backlog_queue)) o s) known ∙ runs in
    (
      u,
      got,
      drained,
      count,
      Steps-IsCounted s u (get_result-Steps (suc (length s.backlog_queue)) t s u got) h,
    )
