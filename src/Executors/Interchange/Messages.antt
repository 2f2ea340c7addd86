-- ===== src/Executors/Interchange/Messages.antt =====
-- The commands of the client and the messages of the managers:
-- environment/parsl/executors/high_throughput/interchange.py, `process_command` and
-- `process_manager_socket_message`.
pub mod Served
pub mod Heard
pub mod Again
use talents_parsl_checkpoint.Prelude.{
  ℕ, ◌+◌, ◌-◌, ◌==◌, Bool, true, false, ◌&&◌, ◌||◌, not, Option, none, some, List, [], ◌∷◌, ◌++◌,
  length, is_in, remove, codes_eq, if◌then◌else◌,
}
use talents_parsl_checkpoint.Dataflow.Errors.{Result, ok, err, assertion_error, ◌>>=◌}
use talents_parsl_checkpoint.Executors.Interchange.{
  Packages, ManagerRecord, ToClient, result, version_mismatch, probed, heartbeat_code, Interchange,
  ManagerTable, get_manager, assign, add_interesting, to_client, to_manager, set_manager,
}

pub data CommandRequest : Type 0 where
  connected_blocks workers managers managers_packages worker_binds unknown : CommandRequest
  hold_worker : ℕ → CommandRequest

-- What the reply to MANAGERS says of one manager.
pub record Summary : Type 0 where
  pub manager : ℕ
  pub of_block : Option (List ℕ)
  pub workers_of : ℕ
  pub tasks_of : ℕ
  pub idle_duration : ℕ
  pub is_active : Bool
  pub is_draining : Bool
  pub parsl_of : List ℕ
  pub python_of : List ℕ

pub data Reply : Type 0 where
  blocks : List (List ℕ) → Reply
  number_of_workers : ℕ → Reply
  summaries : List Summary → Reply
  packages_of : List (ℕ × Packages) → Reply
  port : ℕ → Reply
  nothing : Reply

unfoldable pub sum_workers : ManagerTable → ℕ
sum_workers [] = 0
sum_workers ((k, m) ∷ t) = m.worker_count + sum_workers t

-- `m['idle_since'] or now`: a time of 0 counts as none.
abbrev idle_from : ℕ → Option ℕ → ℕ
idle_from now none = now
idle_from now (some since) = if since == 0 then now else since

unfoldable pub summarise : ℕ → ManagerTable → List Summary
summarise now [] = []
summarise now ((k, m) ∷ t) =
    record {
      manager = k;
      of_block = m.block_id;
      workers_of = m.worker_count;
      tasks_of = length m.tasks;
      idle_duration = now - idle_from now m.idle_since;
      is_active = m.active;
      is_draining = m.draining;
      parsl_of = m.parsl_version;
      python_of = m.python_version;
    }
    ∷ summarise now t

unfoldable pub list_packages : ManagerTable → List (ℕ × Packages)
list_packages [] = []
list_packages ((k, m) ∷ t) = (k, m.packages) ∷ list_packages t

unfoldable pub hold : ℕ → Option ManagerRecord → Interchange → Interchange
hold k none s = s
hold k (some m) s = set_manager k (record m { active = false }) s

-- `process_command`
unfoldable pub process_command :
    (worker_port now : ℕ) → CommandRequest → Interchange → Reply × Interchange
process_command worker_port now connected_blocks s = (blocks s.connected_block_history, s)
process_command worker_port now workers s = (number_of_workers (sum_workers s.ready_managers), s)
process_command worker_port now managers s = (summaries (summarise now s.ready_managers), s)
process_command worker_port now managers_packages s =
    (packages_of (list_packages s.ready_managers), s)
process_command worker_port now (hold_worker k) s =
    (nothing, hold k (get_manager k s.ready_managers) s)
process_command worker_port now worker_binds s = (port worker_port, s)
process_command worker_port now unknown s = (nothing, s)

-- The meta data of a registration.
pub record Registration : Type 0 where
  pub block_id : Option (List ℕ)
  pub worker_count : ℕ
  pub max_capacity : ℕ
  pub hostname : List ℕ
  pub parsl_v : List ℕ
  pub python_v : List ℕ
  pub packages : Packages

-- A part of a batch of results.
pub data Part : Type 0 where
  result_of : ℕ → Part
  monitoring other_part : Part

pub data ManagerMessage : Type 0 where
  -- it cannot be read
  unreadable : ManagerMessage
  connection_probe heartbeat drain other_type : ManagerMessage
  registration : Registration → ManagerMessage
  results : List Part → ManagerMessage

-- What the interchange is started with.
pub record Settings : Type 0 where
  pub parsl_v : List ℕ
  pub python_v : List ℕ
  pub check_python_mismatch : Bool
  pub has_monitoring_radio : Bool
  pub heartbeat_threshold : ℕ
  pub worker_port : ℕ

before_last_dot : List ℕ → Option (List ℕ)
before_last_dot [] = none
before_last_dot (c ∷ s) = elim (before_last_dot s) [
  | some front ↦ some (c ∷ front)
  | none ↦ if c == b'.' then some [] else none
]

-- `version.rsplit('.', 1)[0]`
unfoldable pub minor_version : List ℕ → List ℕ
unfolding before_last_dot
minor_version s = elim (before_last_dot s) [ some front ↦ front | none ↦ s ]

unfoldable pub new_record : ℕ → Registration → ManagerRecord
new_record now r = record {
  block_id = r.block_id;
  tasks = [];
  worker_count = r.worker_count;
  max_capacity = r.max_capacity;
  active = true;
  draining = false;
  hostname = r.hostname;
  last_heartbeat = now;
  idle_since = some now;
  parsl_version = r.parsl_v;
  python_version = r.python_v;
  packages = r.packages;
}

abbrev pub mismatch : Settings → Registration → Bool
mismatch c r =
    not (codes_eq c.parsl_v r.parsl_v)
    || (c.check_python_mismatch
        && not (codes_eq (minor_version c.python_v) (minor_version r.python_v)))

abbrev accept : ℕ → ManagerRecord → Option (List ℕ) → Interchange → Result Interchange
accept k m none s = err assertion_error
accept k m (some block) s = ok (record s {
  ready_managers = assign k m s.ready_managers;
  connected_block_history = s.connected_block_history ++ block ∷ [];
  interesting_managers = add_interesting k s.interesting_managers;
})

-- `mtype == 'registration'`
unfoldable pub register_manager : Settings → ℕ → ℕ → Registration → Interchange → Result Interchange
unfolding new_record minor_version
register_manager c now k r s =
    if mismatch c r
    then ok (to_client (version_mismatch ∷ []) (record s { kill_event = true }))
    else accept k (new_record now r) r.block_id s

-- The tasks that a manager has left, and the IDs of the results that are handed on.
pub record Returned : Type 0 where
  pub left : List ℕ
  pub forwarded : List ℕ

abbrev forward : ℕ → Returned → Returned
forward t r = record r { forwarded = t ∷ r.forwarded }

-- The loop over the parts of a batch. A result of a task that the manager does not hold is dropped.
unfoldable pub take_results : (has_radio : Bool) → List Part → List ℕ → Result Returned
take_results has_radio [] tasks = ok (record { left = tasks; forwarded = [] })
take_results has_radio (result_of t ∷ ps) tasks = elim (is_in t tasks) [
  | true ↦ do r ← take_results has_radio ps (remove t tasks); ok (forward t r)
  | false ↦ take_results has_radio ps tasks
]
take_results has_radio (monitoring ∷ ps) tasks =
    if has_radio then take_results has_radio ps tasks else err assertion_error
take_results has_radio (other_part ∷ ps) tasks = take_results has_radio ps tasks

unfoldable pub results_of : List ℕ → List ToClient
results_of [] = []
results_of (t ∷ ts) = result t ∷ results_of ts

abbrev idle_after : ℕ → List ℕ → Option ℕ → Option ℕ
idle_after now [] none = some now
idle_after now tasks since = since

-- What follows the loop.
unfoldable pub hand_on : (now k : ℕ) → ManagerRecord → Returned → Interchange → Interchange
unfolding results_of
hand_on now k m r s = elim r.forwarded [
  | [] ↦ set_manager k (record m { tasks = r.left }) s
  | t ∷ ts ↦ record s {
    ready_managers =
        assign k (record m { tasks = r.left; idle_since = idle_after now r.left m.idle_since })
          s.ready_managers;
    results_outgoing = s.results_outgoing ++ results_of (t ∷ ts);
    interesting_managers = add_interesting k s.interesting_managers;
  }
]

-- A message of a manager that is registered.
unfoldable pub serve_message :
    Settings → (now k : ℕ) → ManagerRecord → ManagerMessage → Interchange → Result Interchange
serve_message c now k m (results ps) s = do
  r ← take_results c.has_monitoring_radio ps m.tasks
  ok (hand_on now k m r s)
serve_message c now k m heartbeat s =
    ok (to_manager k heartbeat_code (set_manager k (record m { last_heartbeat = now }) s))
serve_message c now k m drain s = ok (set_manager k (record m { draining = true }) s)
serve_message c now k m other s = ok s

abbrev serve_known :
    Settings
    → (now k : ℕ) → Option ManagerRecord
    → ManagerMessage
    → Interchange
    → Result Interchange
serve_known c now k none message s = ok s
serve_known c now k (some m) message s = serve_message c now k m message s

-- `process_manager_socket_message`, with a message of the manager k.
unfoldable pub process_manager_socket_message :
    Settings → (now k : ℕ) → ManagerMessage → Interchange → Result Interchange
process_manager_socket_message c now k unreadable s = ok s
process_manager_socket_message c now k connection_probe s = ok (to_manager k probed s)
process_manager_socket_message c now k (registration r) s = register_manager c now k r s
process_manager_socket_message c now k message s =
    serve_known c now k (get_manager k s.ready_managers) message s
