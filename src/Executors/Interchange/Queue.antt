-- ===== src/Executors/Interchange/Queue.antt =====
-- The pending queue of environment/parsl/executors/high_throughput/interchange.py. It is a
-- `SortedList` of the package sortedcontainers, which is a parameter.
pub mod Order
pub mod Sorted
use talents_parsl_checkpoint.Prelude.{
  ℕ, zero, suc, ◌+◌, ◌≡◌, true, List, [], ◌∷◌, ◌++◌, All, count, count-append, arith,
}
use talents_parsl_checkpoint.Executors.Interchange.{
  Priority, QueueEntry, pops_before, Interchange, task_ids,
}

-- Where an entry was put in.
pub record Inserted (e : QueueEntry) (q r : List QueueEntry) : Type 0 where
  pub front : List QueueEntry
  pub back : List QueueEntry
  pub was : q ≡ front ++ back
  pub is : r ≡ front ++ e ∷ back
  pub before : All (λ f. pops_before f e ≡ true) front
  pub after : All (λ f. pops_before e f ≡ true) back

unfoldable pub IsOrdered : List QueueEntry → Type 0
IsOrdered [] = Unit
IsOrdered (e ∷ q) = All (λ f. pops_before e f ≡ true) q × IsOrdered q

-- `SortedList.add` puts the value where the list stays sorted.
pub record SortedList : Type 0 where
  pub add : QueueEntry → List QueueEntry → List QueueEntry
  pub add_inserts : (e : QueueEntry) (q : List QueueEntry) → IsOrdered q → Inserted e q (add e q)

-- A task message from the client, with the priority of its resource_spec.
pub record TaskMessage : Type 0 where
  pub task_id : ℕ
  pub priority : Priority

-- What `get_tasks` gives back: the tasks, and the queue that stays.
pub record Batch : Type 0 where
  pub tasks : List ℕ
  pub rest : List QueueEntry

-- `get_tasks`: the loop ends early when the queue is empty.
unfoldable pub get_tasks : ℕ → List QueueEntry → Batch
get_tasks zero q = record { tasks = []; rest = q }
get_tasks (suc n) [] = record { tasks = []; rest = [] }
get_tasks (suc n) (e ∷ q) =
    let more = get_tasks n q in record { tasks = e.task_id ∷ more.tasks; rest = more.rest }

-- `process_task_incoming`, with a message.
unfoldable pub process_task_incoming : SortedList → TaskMessage → Interchange → Interchange
process_task_incoming sl msg s = record s {
  pending_task_queue =
      sl.add (record { priority = msg.priority; arrival = s.task_counter; task_id = msg.task_id })
        s.pending_task_queue;
  task_counter = s.task_counter + 1;
  received = msg.task_id ∷ s.received;
}
