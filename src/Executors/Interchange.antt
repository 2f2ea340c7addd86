-- ===== src/Executors/Interchange.antt =====
-- The state of class `Interchange` in environment/parsl/executors/high_throughput/interchange.py, and
-- ManagerRecord of manager_record.py beside it. An exception ends the interchange. The IDs of
-- managers are numbers in place of bytes, times are in whole units, texts are lists of code points.
pub mod Queue
pub mod Managers
pub mod Messages
pub mod Expiry
pub mod Dispatch
pub mod Tracked
pub mod Sound
use talents_parsl_checkpoint.Prelude.{
  ℕ, ◌+◌, ◌==◌, Bool, true, false, ◌&&◌, Option, none, some, List, [], ◌∷◌, ◌++◌, length, leb,
  count, is_in, remove, if◌then◌else◌,
}
use talents_parsl_checkpoint.Prelude.Int.{ℤ, pos, negsuc}
use talents_parsl_checkpoint.Dataflow.Errors.{Result, ok, err, key_error}

-- Names and versions of installed packages.
abbrev pub Packages : Type 0
Packages = List (List ℕ × List ℕ)

pub record ManagerRecord : Type 0 where
  pub block_id : Option (List ℕ)
  pub tasks : List ℕ
  pub worker_count : ℕ
  pub max_capacity : ℕ
  pub active : Bool
  pub draining : Bool
  pub hostname : List ℕ
  pub last_heartbeat : ℕ
  pub idle_since : Option ℕ
  pub parsl_version : List ℕ
  pub python_version : List ℕ
  pub packages : Packages

-- The priority that a task's resource_spec gives, or infinity: a higher number is a lower priority.
pub data Priority : Type 0 where
  finite : ℤ → Priority
  infinite : Priority

abbrev pub le_ℤ : ℤ → ℤ → Bool
le_ℤ (pos m) (pos n) = leb m n
le_ℤ (pos m) (negsuc n) = false
le_ℤ (negsuc m) (pos n) = true
le_ℤ (negsuc m) (negsuc n) = leb n m

abbrev pub le_priority : Priority → Priority → Bool
le_priority p infinite = true
le_priority infinite (finite m) = false
le_priority (finite m) (finite n) = le_ℤ m n

-- An entry of the pending queue, (-priority, -task_counter, msg).
pub record QueueEntry : Type 0 where
  pub priority : Priority
  pub arrival : ℕ
  pub task_id : ℕ

-- The first entry is popped before the second: the key of the queue, the greatest key first.
abbrev pub pops_before : QueueEntry → QueueEntry → Bool
pops_before e f =
    le_priority e.priority f.priority
    && (if le_priority f.priority e.priority then leb e.arrival f.arrival else true)

pub data ToClient : Type 0 where
  -- a manager's result is handed on
  result : ℕ → ToClient
  -- `ManagerLost`, for a task of the manager with the hostname
  manager_lost : (task_id manager_id : ℕ) → List ℕ → ToClient
  -- `VersionMismatch`, for the task -1
  version_mismatch : ToClient

pub data ToManager : Type 0 where
  probed heartbeat_code drained_code : ToManager
  batch : List ℕ → ToManager

-- The pending queue is listed as it is popped, `_ready_managers` in the order of the dict.
-- `received` is the history of the task IDs that came in; no operation reads it. Neither do they read
-- what they sent on the two sockets.
pub record Interchange : Type 0 where
  pub pending_task_queue : List QueueEntry
  pub task_counter : ℕ
  pub count_sent : ℕ
  pub ready_managers : List (ℕ × ManagerRecord)
  pub connected_block_history : List (List ℕ)
  pub interesting_managers : List ℕ
  pub kill_event : Bool
  pub results_outgoing : List ToClient
  pub manager_sock : List (ℕ × ToManager)
  pub received : List ℕ

-- The dict of the managers.
abbrev pub ManagerTable : Type 0
ManagerTable = List (ℕ × ManagerRecord)

unfoldable pub get_manager : ℕ → ManagerTable → Option ManagerRecord
get_manager k [] = none
get_manager k ((j, m) ∷ t) = if j == k then some m else get_manager k t

-- `d[k] = m`
unfoldable pub assign : ℕ → ManagerRecord → ManagerTable → ManagerTable
assign k m [] = (k, m) ∷ []
assign k m ((j, n) ∷ t) = if j == k then (k, m) ∷ t else (j, n) ∷ assign k m t

-- `d.pop(k, …)`
unfoldable pub pop : ℕ → ManagerTable → ManagerTable
pop k [] = []
pop k ((j, m) ∷ t) = if j == k then t else (j, m) ∷ pop k t

-- `interesting_managers.add`
unfoldable pub add_interesting : ℕ → List ℕ → List ℕ
add_interesting k interesting = if is_in k interesting then interesting else k ∷ interesting

-- `interesting_managers.remove`
unfoldable pub remove_interesting : ℕ → Interchange → Result Interchange
remove_interesting k s =
    if is_in k s.interesting_managers
    then ok (record s { interesting_managers = remove k s.interesting_managers })
    else err key_error

abbrev pub to_client : List ToClient → Interchange → Interchange
to_client messages s = record s { results_outgoing = s.results_outgoing ++ messages }

abbrev pub to_manager : ℕ → ToManager → Interchange → Interchange
to_manager k message s = record s { manager_sock = s.manager_sock ++ (k, message) ∷ [] }

abbrev pub set_manager : ℕ → ManagerRecord → Interchange → Interchange
set_manager k m s = record s { ready_managers = assign k m s.ready_managers }

unfoldable pub task_ids : List QueueEntry → List ℕ
task_ids [] = []
task_ids (e ∷ q) = e.task_id ∷ task_ids q
