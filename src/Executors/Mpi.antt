-- ===== src/Executors/Mpi.antt =====
-- environment/parsl/executors/high_throughput/mpi_resource_management.py: `MPITaskScheduler` hands the
-- nodes of a batch job to MPI tasks. Each operation is one step; the node names are strings.
pub mod Nodes
pub mod History
use talents_parsl_checkpoint.Prelude.{
  ℕ, zero, suc, ◌+◌, ◌-◌, ◌==◌, String, Bool, true, false, Option, none, some, List, [], ◌∷◌, ◌++◌,
  length, take, drop, leb, if◌then◌else◌,
}
use talents_parsl_checkpoint.Prelude.Sorting.{insert_sorted, by_key}

-- The task package: `context.resource_spec.num_nodes`, and the `MPI_NODELIST` that is put beside it.
pub record Package : Type 0 where
  pub task_id : ℕ
  pub num_nodes : Option ℕ
  pub nodelist : Option (List String)

-- `PrioritizedTask`
pub record PrioritizedTask : Type 0 where
  pub priority : ℕ
  pub task : Package

abbrev pub priority_of : PrioritizedTask → ℕ
priority_of p = p.priority

-- The backlog is a priority queue, the least priority first.
pub record Scheduler : Type 0 where
  pub nodes_q : List String
  pub free_node_counter : ℕ
  pub backlog_queue : List PrioritizedTask
  pub map_tasks_to_nodes : List (ℕ × List String)
  pub pending_task_q : List Package

-- `_get_nodes`: `none` is `MPINodesUnavailable`.
unfoldable pub get_nodes : ℕ → Scheduler → Option (List String) × Scheduler
get_nodes n s =
    if leb n s.free_node_counter
    then (
      some (take n s.nodes_q),
      record s { free_node_counter = s.free_node_counter - n; nodes_q = drop n s.nodes_q },
    )
    else (none, s)

unfoldable pub return_nodes : List String → Scheduler → Scheduler
return_nodes nodes s = record s {
  nodes_q = s.nodes_q ++ nodes;
  free_node_counter = s.free_node_counter + length nodes;
}

abbrev enqueue : Package → Scheduler → Scheduler
enqueue p s = record s { pending_task_q = s.pending_task_q ++ p ∷ [] }

-- The task runs on its nodes, or waits in the backlog.
unfoldable pub place : Package → ℕ → Option (List String) × Scheduler → Scheduler
place p n (none, s) = record s {
  backlog_queue =
      insert_sorted (by_key priority_of) (record { priority = n; task = p }) s.backlog_queue;
}
place p n (some nodes, s) =
    enqueue (record p { nodelist = some nodes })
      (record s { map_tasks_to_nodes = (p.task_id, nodes) ∷ s.map_tasks_to_nodes })

-- A request for no nodes, or for 0 of them, is not an MPI task.
unfoldable pub put_needing : Package → Option ℕ → Scheduler → Scheduler
put_needing p none s = enqueue p s
put_needing p (some zero) s = enqueue p s
put_needing p (some (suc n)) s = place p (suc n) (get_nodes (suc n) s)

unfoldable pub put_task : Package → Scheduler → Scheduler
put_task p s = put_needing p p.num_nodes s

-- `_schedule_backlog_tasks` calls itself until the backlog is empty. `none` means that the fuel, the
-- depth of the recursion, ran out.
unfoldable pub schedule_from : (fuel : ℕ) → List PrioritizedTask → Scheduler → Option Scheduler
schedule_from zero backlog s = none
schedule_from (suc fuel) [] s = some s
schedule_from (suc fuel) (p ∷ ps) s =
    let next = put_task p.task (record s { backlog_queue = ps }) in
    schedule_from fuel next.backlog_queue next

unfoldable pub schedule_backlog_tasks : (fuel : ℕ) → Scheduler → Option Scheduler
schedule_backlog_tasks fuel s = schedule_from fuel s.backlog_queue s

unfoldable pub nodes_for : ℕ → List (ℕ × List String) → Option (List String)
nodes_for t [] = none
nodes_for t ((u, nodes) ∷ rest) = if u == t then some nodes else nodes_for t rest

unfoldable pub relinquish : (fuel : ℕ) → Option (List String) → Scheduler → Option Scheduler
relinquish fuel none s = none
relinquish fuel (some nodes) s = schedule_backlog_tasks fuel (return_nodes nodes s)

-- `get_result` for a result of the task: its nodes are free again, and go to the backlog. A task that
-- is not in the map fails the assertion.
unfoldable pub get_result : (fuel task_id : ℕ) → Scheduler → Option Scheduler
get_result fuel t s = relinquish fuel (nodes_for t s.map_tasks_to_nodes) s
