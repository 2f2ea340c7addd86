-- ===== src/Executors/Interchange/Dispatch.antt =====
-- The pending tasks go to the managers that have room:
-- environment/parsl/executors/high_throughput/interchange.py, `process_tasks_to_send` and `start`, and
-- manager_selector.py.
pub mod Offered
pub mod Shared
pub mod Rounds
use talents_parsl_checkpoint.Prelude.{
  ℕ, ◌+◌, ◌-◌, ◌==◌, Bool, true, false, ◌&&◌, not, Option, none, some, List, [], ◌∷◌, ◌++◌, length,
  ltb, if◌then◌else◌,
}
use mathlib.Core.List.{reverse}
use talents_parsl_checkpoint.Prelude.Sorting.{sorted}
use talents_parsl_checkpoint.Dataflow.Errors.{Result, ok, err, key_error, ◌>>=◌}
use talents_parsl_checkpoint.Dataflow.Memo.Identity.{lex_le}
use talents_parsl_checkpoint.Executors.Interchange.{
  ManagerRecord, QueueEntry, batch, Interchange, ManagerTable, get_manager, assign,
  remove_interesting,
}
use talents_parsl_checkpoint.Executors.Interchange.Queue.{
  SortedList, TaskMessage, Batch, get_tasks, process_task_incoming,
}
use talents_parsl_checkpoint.Executors.Interchange.Messages.{
  CommandRequest, Reply, ManagerMessage, Settings, process_command, process_manager_socket_message,
}
use talents_parsl_checkpoint.Executors.Interchange.Expiry.{
  expire_drained_managers, expire_bad_managers,
}

-- `ManagerSelector.sort_managers`
abbrev pub Selector : Type 0
Selector = ManagerTable → List ℕ → Result (List ℕ)

-- `RandomManagerSelector`, with what `random.shuffle` does.
unfoldable pub random_manager_selector : (List ℕ → List ℕ) → Selector
random_manager_selector shuffle managers interesting = ok (shuffle interesting)

-- The key of a manager: without a block first, then by the name of the block.
abbrev pub le_block : Option (List ℕ) → Option (List ℕ) → Bool
le_block none b = true
le_block (some a) none = false
le_block (some a) (some b) = lex_le a b

block_of : Option ManagerRecord → Option (List ℕ)
block_of none = none
block_of (some m) = m.block_id

abbrev pub le_manager : ManagerTable → ℕ → ℕ → Bool
unfolding block_of
le_manager managers j k =
    le_block (block_of (get_manager j managers)) (block_of (get_manager k managers))

abbrev is_known : Option ManagerRecord → Bool
is_known none = false
is_known (some m) = true

unfoldable pub all_known : ManagerTable → List ℕ → Bool
all_known managers [] = true
all_known managers (k ∷ ks) = is_known (get_manager k managers) && all_known managers ks

-- `BlockIdManagerSelector`
unfoldable pub block_id_manager_selector : Selector
block_id_manager_selector managers interesting =
    if all_known managers interesting
    then ok (sorted (le_manager managers) interesting)
    else err key_error

abbrev has_room : ManagerRecord → Bool
has_room m = not (length m.tasks == m.max_capacity) && (m.active && not m.draining)

abbrev still_interesting : ℕ → Bool → Interchange → Result Interchange
still_interesting k true s = ok s
still_interesting k false s = remove_interesting k s

-- A batch that is not empty is sent. A manager that is full then is not interesting.
unfoldable pub send :
    ℕ → ManagerRecord → List ℕ → List QueueEntry → Interchange → Result Interchange
send k m [] rest s = ok s
send k m (t ∷ ts) rest s =
    still_interesting k (ltb (length (m.tasks ++ t ∷ ts)) m.max_capacity) (record s {
      pending_task_queue = rest;
      count_sent = s.count_sent + length (t ∷ ts);
      ready_managers =
          assign k (record m { tasks = m.tasks ++ t ∷ ts; idle_since = none }) s.ready_managers;
      manager_sock = s.manager_sock ++ (k, batch (t ∷ ts)) ∷ [];
    })

abbrev send_batch : ℕ → ManagerRecord → Batch → Interchange → Result Interchange
send_batch k m b s = send k m b.tasks b.rest s

-- What is offered to one manager. A capacity below the tasks in flight asks for no task.
unfoldable pub offer : ℕ → Option ManagerRecord → Interchange → Result Interchange
offer k none s = err key_error
offer k (some m) s =
    if has_room m
    then send_batch k m (get_tasks (m.max_capacity - length m.tasks) s.pending_task_queue) s
    else remove_interesting k s

abbrev is_empty {ℓ} : {A : Type ℓ} → List A → Bool
is_empty [] = true
is_empty (x ∷ xs) = false

-- The loop over the managers, in the order in which they are popped.
unfoldable pub offer_all : List ℕ → Interchange → Result Interchange
offer_all [] s = ok s
offer_all (k ∷ ks) s =
    if is_empty s.pending_task_queue
    then ok s
    else (do t ← offer k (get_manager k s.ready_managers) s; offer_all ks t)

unfoldable pub process_tasks_to_send : Selector → Interchange → Result Interchange
process_tasks_to_send select s =
    if not (is_empty s.interesting_managers) && not (is_empty s.pending_task_queue)
    then (do
      shuffled ← select s.ready_managers s.interesting_managers
      offer_all (reverse shuffled) s)
    else ok s

-- What one call of `poll` finds on the three sockets, and the time.
pub record Poll : Type 0 where
  pub now : ℕ
  pub command : Option CommandRequest
  pub task : Option TaskMessage
  pub from_manager : Option (ℕ × ManagerMessage)

module _ (sl : SortedList) (select : Selector) (c : Settings) where
  abbrev answer : ℕ → Option CommandRequest → Interchange → Interchange
  answer now none s = s
  answer now (some command) s = (process_command c.worker_port now command s).1

  abbrev receive : Option TaskMessage → Interchange → Interchange
  receive none s = s
  receive (some msg) s = process_task_incoming sl msg s

  abbrev hear : ℕ → Option (ℕ × ManagerMessage) → Interchange → Result Interchange
  hear now none s = ok s
  hear now (some (k, message)) s = process_manager_socket_message c now k message s

  -- One round of the loop of `start`.
  unfoldable pub round : Poll → Interchange → Result Interchange
  round p s = do
    heard ← hear p.now p.from_manager (receive p.task (answer p.now p.command s))
    left ← expire_drained_managers (expire_bad_managers c.heartbeat_threshold p.now heard)
    process_tasks_to_send select left

  -- The loop of `start`, until the kill event is set.
  unfoldable pub start : List Poll → Interchange → Result Interchange
  start [] s = ok s
  start (p ∷ ps) s = if s.kill_event then ok s else (do t ← round p s; start ps t)
