-- ===== src/Tests/Htex.antt =====
-- The interchange.
use talents_parsl_checkpoint.Prelude.{
  ℕ, ◌≡◌, ◌⊎◌, ◌≤◌, refl, Bool, true, false, ◌&&◌, Option, none, some, List, [], ◌∷◌, ◌++◌, All,
  length, is_in, remove, codes_eq, arith, if◌then◌else◌,
}
use talents_parsl_checkpoint.Prelude.Int.{pos}
use talents_parsl_checkpoint.Prelude.Sorting.{insert_sorted, sorted}
use talents_parsl_checkpoint.Dataflow.Errors.{Result, ok, err, ◌>>=◌}
use talents_parsl_checkpoint.Executors.Interchange.{
  ToClient, ToManager, result, batch, remove_interesting, ManagerRecord, finite, infinite,
  QueueEntry, Interchange, get_manager, assign, add_interesting, task_ids,
}
use talents_parsl_checkpoint.Executors.Interchange.Queue.{
  IsOrdered, get_tasks, process_task_incoming,
}
use talents_parsl_checkpoint.Executors.Interchange.Queue.Sorted.{by_insertion}
use talents_parsl_checkpoint.Executors.Interchange.Queue.Order.{IsServedFirst, get_tasks_first}
use talents_parsl_checkpoint.Executors.Interchange.Managers.{held, keys}
use talents_parsl_checkpoint.Executors.Interchange.Tracked.{HasRoom}
use talents_parsl_checkpoint.Executors.Interchange.Sound.{
  answered, IsConserved, IsSound, is_drained,
}
use talents_parsl_checkpoint.Executors.Interchange.Messages.{
  Settings, Registration, registration, results, result_of, drain, mismatch, minor_version,
  serve_message, hand_on, take_results, register_manager, results_of,
  process_manager_socket_message,
}
use talents_parsl_checkpoint.Executors.Interchange.Messages.Served.{AreExpected}
use talents_parsl_checkpoint.Executors.Interchange.Messages.Again.{registered_again}
use talents_parsl_checkpoint.Executors.Interchange.Expiry.{
  expire_drained, expire_if_drained, expire_bad_managers, expire_all, bad_managers,
  expire_drained_managers,
}
use talents_parsl_checkpoint.Executors.Interchange.Expiry.Drained.{
  expire_drained_managers_exact, uninteresting_manager_stays,
}
use talents_parsl_checkpoint.Executors.Interchange.Dispatch.{
  process_tasks_to_send, offer_all, offer, send, all_known, Poll, round, start,
  block_id_manager_selector,
}
use talents_parsl_checkpoint.Executors.Interchange.Dispatch.Shared.{
  block_id_manager_selector-IsFair,
}
use talents_parsl_checkpoint.Executors.Interchange.Dispatch.Rounds.{
  AreExpectedPolls, round-work_conserving, start-IsSound,
}

abbrev settings : Settings
settings = record {
  parsl_v = b'1' ∷ [];
  python_v = b'3' ∷ b'.' ∷ b'1' ∷ [];
  check_python_mismatch = true;
  has_monitoring_radio = false;
  heartbeat_threshold = 120;
  worker_port = 54000;
}

abbrev one_worker : Registration
one_worker = record {
  block_id = some (b'0' ∷ []);
  worker_count = 1;
  max_capacity = 1;
  hostname = b'n' ∷ [];
  parsl_v = b'1' ∷ [];
  python_v = b'3' ∷ b'.' ∷ b'2' ∷ [];
  packages = [];
}

abbrev fresh : Interchange
fresh = record {
  pending_task_queue = [];
  task_counter = 0;
  count_sent = 0;
  ready_managers = [];
  connected_block_history = [];
  interesting_managers = [];
  kill_event = false;
  results_outgoing = [];
  manager_sock = [];
  received = [];
}

fresh-IsSound : IsSound [] fresh
unfolding keys get_manager held answered task_ids IsOrdered
fresh-IsSound = record {
  tracked = record {
    dict = λ j. omega arith;
    once = λ j. omega arith;
    known = λ j p. absurd (omega arith);
    bounded = λ j m e. absurd (cc);
    registered = λ j p. absurd (p refl);
    served = λ j m e r. absurd (cc);
  };
  ordered = tt;
  conserved = λ x. omega arith;
}

-- A manager registers and a task comes; a more urgent one comes; the first result comes back.
abbrev first : Poll
first = record {
  now = 1;
  command = none;
  task = some (record { task_id = 7; priority = infinite });
  from_manager = some (5, registration one_worker);
}

abbrev polls : List Poll
polls =
    first
    ∷ record {
      now = 2;
      command = none;
      task = some (record { task_id = 8; priority = finite (pos 1) });
      from_manager = none;
    }
    ∷ record {
      now = 3;
      command = none;
      task = none;
      from_manager = some (5, results (result_of 7 ∷ []));
    }
    ∷ []

polls-AreExpected : AreExpectedPolls settings [] polls
unfolding AreExpectedPolls AreExpected
polls-AreExpected = (((b'0' ∷ [], refl), refl), (tt, (tt, tt)))

abbrev outputs : Result Interchange → Option (List ToClient × List (ℕ × ToManager))
outputs (ok s) = some (s.results_outgoing, s.manager_sock)
outputs (err x) = none

-- Each task is sent to the manager when it has room.
start_example :
    outputs (start by_insertion block_id_manager_selector settings polls fresh)
    ≡ some (result 7 ∷ [], (5, batch (7 ∷ [])) ∷ (5, batch (8 ∷ [])) ∷ [])
unfolding start round process_tasks_to_send offer_all offer send get_tasks block_id_manager_selector
    all_known sorted insert_sorted expire_drained_managers expire_drained expire_if_drained
    expire_bad_managers expire_all bad_managers process_manager_socket_message serve_message hand_on
    take_results register_manager get_manager assign add_interesting remove_interesting
    process_task_incoming remove minor_version codes_eq results_of
start_example = refl

start-IsSound_example :
    (s : Interchange) × (start by_insertion block_id_manager_selector settings polls fresh ≡ ok s)
    × ((seen : List ℕ) × IsSound seen s)
start-IsSound_example =
    start-IsSound by_insertion block_id_manager_selector block_id_manager_selector-IsFair settings
      polls [] fresh fresh-IsSound polls-AreExpected

round-work_conserving_example :
    (s : Interchange) × (round by_insertion block_id_manager_selector settings first fresh ≡ ok s)
    × ((s.pending_task_queue ≡ [])
        ⊎ ((k : ℕ) (m : ManagerRecord) → get_manager k s.ready_managers ≡ some m → ¬ HasRoom m))
round-work_conserving_example =
    round-work_conserving by_insertion block_id_manager_selector block_id_manager_selector-IsFair
      settings first [] fresh fresh-IsSound ((b'0' ∷ [], refl), refl)

abbrev two_entries : List QueueEntry
two_entries =
    record { priority = finite (pos 1); arrival = 1; task_id = 8 }
    ∷ record { priority = infinite; arrival = 0; task_id = 7 }
    ∷ []

two_entries-IsOrdered : IsOrdered two_entries
unfolding IsOrdered
two_entries-IsOrdered = ((refl, tt), (tt, tt))

get_tasks_first_example :
    let b = get_tasks 1 two_entries in
    (taken : List QueueEntry) × (two_entries ≡ taken ++ b.rest)
    × (b.tasks ≡ task_ids taken)
    × (length b.tasks ≤ 1)
    × ((b.rest ≡ []) ⊎ (length b.tasks ≡ 1))
    × All (λ e. All (λ f. IsServedFirst e f) b.rest) taken
get_tasks_first_example = get_tasks_first 1 two_entries two_entries-IsOrdered

-- A manager with the given tasks, of which it can hold 1.
abbrev manager : List ℕ → Bool → Bool → ManagerRecord
manager ts active draining = record {
  block_id = some (b'0' ∷ []);
  tasks = ts;
  worker_count = 1;
  max_capacity = 1;
  active = active;
  draining = draining;
  hostname = b'n' ∷ [];
  last_heartbeat = 0;
  idle_since = none;
  parsl_version = b'1' ∷ [];
  python_version = b'3' ∷ [];
  packages = [];
}

-- An interchange that has received the tasks of its only manager.
abbrev with_manager : ManagerRecord → List ℕ → Interchange
with_manager m interesting = record fresh {
  ready_managers = (5, m) ∷ [];
  interesting_managers = interesting;
  received = m.tasks;
}

drained-IsSound : IsSound (5 ∷ []) (with_manager (manager [] true true) (5 ∷ []))
unfolding keys get_manager held answered task_ids IsOrdered
drained-IsSound = record {
  tracked = record {
    dict = λ j. ground arith;
    once = λ j. ground arith;
    known = λ j p. ground arith;
    bounded = λ j m e. ground arith;
    registered = λ j p. ground arith;
    served = λ j m e r. ground arith;
  };
  ordered = tt;
  conserved = λ x. omega arith;
}

expire_drained_managers_exact_example :
    let s = with_manager (manager [] true true) (5 ∷ []) in
    (s' : Interchange) × (expire_drained_managers s ≡ ok s')
    × ((j : ℕ)
        → get_manager j s'.ready_managers ≡ (
            if is_in j s.interesting_managers && is_drained (get_manager j s.ready_managers)
            then none
            else get_manager j s.ready_managers))
expire_drained_managers_exact_example =
    expire_drained_managers_exact (5 ∷ []) (with_manager (manager [] true true) (5 ∷ []))
      drained-IsSound

-- The manager was held while it had no task.
held-IsSound : IsSound (5 ∷ []) (with_manager (manager [] false false) [])
unfolding keys get_manager held answered task_ids IsOrdered
held-IsSound = record {
  tracked = record {
    dict = λ j. ground arith;
    once = λ j. ground arith;
    known = λ j p. ground arith;
    bounded = λ j m e. ground arith;
    registered = λ j p. ground arith;
    served = λ j m e r. ground arith;
  };
  ordered = tt;
  conserved = λ x. omega arith;
}

found :
    get_manager 5 (with_manager (manager [] false false) []).ready_managers
    ≡ some (manager [] false false)
unfolding get_manager
found = refl

uninteresting_manager_stays_example :
    (s' : Interchange) × ((process_manager_socket_message settings 9 5 drain
          (with_manager (manager [] false false) [])
        >>= expire_drained_managers)
      ≡ ok s')
    × (get_manager 5 s'.ready_managers ≡ some (manager [] false true))
uninteresting_manager_stays_example =
    uninteresting_manager_stays settings 9 5 (manager [] false false) (5 ∷ [])
      (with_manager (manager [] false false) []) held-IsSound found refl

abbrev busy : Interchange
busy = with_manager (manager (7 ∷ []) true false) []

busy-IsConserved : IsConserved busy
unfolding held answered task_ids
busy-IsConserved x = omega arith

busy_found : get_manager 5 busy.ready_managers ≡ some (manager (7 ∷ []) true false)
unfolding get_manager
busy_found = refl

same_version : mismatch settings one_worker ≡ false
unfolding minor_version codes_eq
same_version = refl

registered_again_example :
    (s' : Interchange) × (process_manager_socket_message settings 9 5 (registration one_worker) busy
      ≡ ok s')
    × ¬ IsConserved s'
registered_again_example =
    registered_again 5 7 (b'0' ∷ []) (manager (7 ∷ []) true false) busy busy-IsConserved busy_found
      (omega arith) settings 9 one_worker same_version refl
