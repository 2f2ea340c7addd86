-- ===== src/Tests/Blocks.antt =====
-- Recovery, block scaling, block failures and MPI nodes.
use mathlib.Core.List.{Permᴰ}
use talents_parsl_checkpoint.Prelude.{
  ℕ, ◌+◌, ◌≤◌, ◌≡◌, ◌↔◌, refl, max, String, Bool, true, false, none, some, List, [], ◌∷◌, length,
  All, arith,
}
use talents_parsl_checkpoint.Prelude.Sorting.{insert_sorted, IsAscending}
use talents_parsl_checkpoint.Dataflow.Rundirs.Decimal.{format_03d}
use talents_parsl_checkpoint.Dataflow.Recovery.{Run, discovered, number_of}
use talents_parsl_checkpoint.Dataflow.Recovery.Discovery.{resumable_runs, discovered-IsAscending}
use talents_parsl_checkpoint.Jobs.Strategy.{Provider, htex, Reading, ExecutorState, adjust}
use talents_parsl_checkpoint.Jobs.Strategy.Bounds.{IsWithin, adjust-IsWithin}
use talents_parsl_checkpoint.Jobs.Failures.{
  failed, missing, running, Status, windowed_error_handler, simple_error_handler,
}
use talents_parsl_checkpoint.Jobs.Failures.Window.{
  IsFailed, IsLatest, windowed_error_handler_iff, simple_error_handler_iff,
}
use talents_parsl_checkpoint.Executors.Mpi.{
  Package, PrioritizedTask, Scheduler, put_task, put_needing, place, get_nodes, nodes_for,
  return_nodes, schedule_backlog_tasks, get_result,
}
use talents_parsl_checkpoint.Executors.Mpi.Nodes.{
  IsCounted, schedule_backlog_tasks_total, schedule_backlog_tasks_diverges,
}
use talents_parsl_checkpoint.Executors.Mpi.History.{Step, Steps, Steps-IsCounted, get_result_total}

abbrev run_of : ℕ → Bool → Run
run_of n kept = record { name = format_03d n; has_checkpoint = kept }

-- The runs 1000 and 999, and one without a checkpoint.
abbrev three_runs : List Run
three_runs = run_of 1000 true ∷ run_of 999 true ∷ run_of 3 false ∷ []

discovered-IsAscending_example :
    Permᴰ (discovered (some three_runs)) (resumable_runs three_runs)
    × IsAscending number_of (discovered (some three_runs))
discovered-IsAscending_example = discovered-IsAscending three_runs

abbrev small_provider : Provider
small_provider = record {
  init_blocks = 1;
  min_blocks = 1;
  max_blocks = 4;
  nodes_per_block = 1;
  tasks_per_node = 2;
  parallelism_num = 1;
  parallelism_den = 2;
}

-- Nine tasks, and one block of two slots.
abbrev busy : Reading
busy = record { active_tasks = 9; active_blocks = 1; is_htex = true; now = 10; later = 11 }

abbrev started : ExecutorState
started = record { idle_since = none; first = false }

adjust-IsWithin_example :
    All (IsWithin small_provider 1) (adjust small_provider 60 htex busy started).0
adjust-IsWithin_example = adjust-IsWithin small_provider 60 htex busy started

abbrev three_blocks : Status
three_blocks = (10, failed) ∷ (9, missing) ∷ (2, running) ∷ []

windowed_error_handler_iff_example :
    (windowed_error_handler 2 three_blocks ≡ true)
    ↔ ((latest : Status) × IsLatest 2 three_blocks latest × All IsFailed latest)
windowed_error_handler_iff_example = windowed_error_handler_iff 2 three_blocks (omega arith)

simple_error_handler_iff_example :
    (simple_error_handler (some 2) 3 three_blocks ≡ true)
    ↔ ((max 1 2 ≤ 3) × All IsFailed three_blocks)
simple_error_handler_iff_example = simple_error_handler_iff 2 3 three_blocks

abbrev mpi_task : ℕ → ℕ → Package
mpi_task t n = record { task_id = t; num_nodes = some n; nodelist = none }

abbrev waiting_task : ℕ → ℕ → PrioritizedTask
waiting_task t n = record { priority = n; task = mpi_task t n }

abbrev batch_job : List String → List PrioritizedTask → Scheduler
batch_job nodes backlog = record {
  nodes_q = nodes;
  free_node_counter = length nodes;
  backlog_queue = backlog;
  map_tasks_to_nodes = [];
  pending_task_q = [];
}

abbrev three_free : Scheduler
three_free = batch_job ("a" ∷ "b" ∷ "c" ∷ []) (waiting_task 1 1 ∷ waiting_task 2 2 ∷ [])

schedule_backlog_tasks_total_example :
    (s' : Scheduler) × (schedule_backlog_tasks 3 three_free ≡ some s')
    × (s'.backlog_queue ≡ [])
    × (s'.free_node_counter + 3 ≡ 3)
schedule_backlog_tasks_total_example =
    schedule_backlog_tasks_total three_free ((refl, omega arith), ((refl, omega arith), tt))
      (omega arith)

abbrev one_free : Scheduler
one_free = batch_job ("a" ∷ []) (waiting_task 2 2 ∷ [])

-- With a recursion as deep as Python allows.
schedule_backlog_tasks_diverges_example : schedule_backlog_tasks 1000 one_free ≡ none
unfolding IsAscending
schedule_backlog_tasks_diverges_example =
    schedule_backlog_tasks_diverges 1000 (waiting_task 2 2) [] one_free refl refl (tt, tt)
      (omega arith)

-- Two tasks of two nodes each on three nodes: the second waits for the result of the first.
abbrev three_nodes : Scheduler
three_nodes = batch_job ("a" ∷ "b" ∷ "c" ∷ []) []

abbrev first_placed : Scheduler
first_placed = put_task (mpi_task 1 2) three_nodes

abbrev second_waits : Scheduler
second_waits = put_task (mpi_task 2 2) first_placed

abbrev first_done : Scheduler
first_done = return_nodes ("a" ∷ "b" ∷ []) second_waits

abbrev second_placed : Scheduler
second_placed = put_task (mpi_task 2 2) (record first_done { backlog_queue = [] })

in_turn : Steps three_nodes second_placed
unfolding put_task put_needing place get_nodes return_nodes nodes_for insert_sorted
in_turn =
    Steps.step
      (Steps.step
        (Steps.step (Steps.step Steps.done (Step.puts (mpi_task 1 2))) (Step.puts (mpi_task 2 2)))
        (Step.returns 1 ("a" ∷ "b" ∷ []) refl))
      (Step.reschedules (record { priority = 2; task = mpi_task 2 2 }) [] refl)

three_nodes-IsCounted : IsCounted three_nodes
unfolding IsAscending
three_nodes-IsCounted = record { counter = refl; ordered = tt; waiting = tt }

Steps-IsCounted_example : IsCounted second_placed
Steps-IsCounted_example = Steps-IsCounted three_nodes second_placed in_turn three_nodes-IsCounted

abbrev second_waiting : Scheduler
second_waiting = record {
  nodes_q = "c" ∷ [];
  free_node_counter = 1;
  backlog_queue = record { priority = 2; task = mpi_task 2 2 } ∷ [];
  map_tasks_to_nodes = (1, "a" ∷ "b" ∷ []) ∷ [];
  pending_task_q = [];
}

second_waiting-IsCounted : IsCounted second_waiting
unfolding IsAscending
second_waiting-IsCounted = record {
  counter = refl;
  ordered = (tt, tt);
  waiting = ((refl, omega arith), tt);
}

get_result_total_example :
    (u : Scheduler) × (get_result 2 1 second_waiting ≡ some u)
    × (u.backlog_queue ≡ [])
    × (u.free_node_counter + 2 ≡ 3)
    × IsCounted u
unfolding nodes_for
get_result_total_example =
    get_result_total 1 ("a" ∷ "b" ∷ []) second_waiting second_waiting-IsCounted refl (omega arith)
