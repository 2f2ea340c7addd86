-- ===== src/Tests/Kernel.antt =====
-- A kernel with one cached task, in the mode `task_exit` and in a deferred mode.
use talents_parsl_checkpoint.Prelude.{
  ℕ, ◌<◌, arith, has_id, refl, ℕ, ◌≡◌, ◌++◌, true, false, none, some, List, [], ◌∷◌,
}
use talents_parsl_checkpoint.Prelude.Int.{ℤ}
use talents_parsl_checkpoint.Dataflow.Errors.{Exn, app_error, Result, ok}
use talents_parsl_checkpoint.Dataflow.States.{launched, exec_done}
use talents_parsl_checkpoint.Dataflow.Values.{num, function, nil, end}
use talents_parsl_checkpoint.Dataflow.Tasks.{TaskRecord}
use talents_parsl_checkpoint.Dataflow.Dependencies.{shallow_dependency_resolver}
use talents_parsl_checkpoint.Dataflow.Completion.{TaskOutcome}
use talents_parsl_checkpoint.Dataflow.Checkpoint.{Effect, append_fails, restored}
use talents_parsl_checkpoint.Dataflow.Kernel.{
  CheckpointMode, task_exit, periodic, Publication, Config, Dfk, returned, excepted,
}
use talents_parsl_checkpoint.Dataflow.Kernel.Publish.{complete_task, checkpoint, pending_outcomes}
use talents_parsl_checkpoint.Dataflow.Kernel.Finalised.{AllFinal}
use talents_parsl_checkpoint.Dataflow.Memo.Loading.Roundtrip.{Dumped}
use talents_parsl_checkpoint.Dataflow.Kernel.Durability.{IsDurable, complete_task-IsDurable}
use talents_parsl_checkpoint.Dataflow.Kernel.Transaction.{Transaction, complete_task-Transaction}
use talents_parsl_checkpoint.Dataflow.Kernel.Events.{launch, execution, handle_all}
use talents_parsl_checkpoint.Dataflow.Kernel.Success.{pickled_entry}
use talents_parsl_checkpoint.Dataflow.Kernel.Reuse.{launch_task-hit}
use talents_parsl_checkpoint.Dataflow.Kernel.Launch.{launch_task, finished}
use talents_parsl_checkpoint.Dataflow.Memo.{lookup}
use talents_parsl_checkpoint.Dataflow.Memo.Identity.{
  make_hash, call_bytes, id_for_memo, items_ids, fields_ids, filter_kw, sort_keys,
}
use talents_parsl_checkpoint.Dataflow.Kernel.Retries.{AllPaid, handle_all-AllPaid}
use talents_parsl_checkpoint.Dataflow.Kernel.Boundary.{handle_all-AllFinal}
use talents_parsl_checkpoint.Dataflow.Kernel.Ledger.{
  ledger, payload_bytes, completed, completes, flushes, Moment, live, live-ledger, Flushed,
  checkpoint-Flushed,
}
use talents_parsl_checkpoint.Tests.Library.{toy, dumps}

abbrev pub config : CheckpointMode → Config
config mode = record {
  rt = toy;
  app_cache = true;
  checkpoint_mode = some mode;
  garbage_collect = true;
  retries = 1;
  retry_handler = none;
  dependency_resolver = shallow_dependency_resolver;
  executors = λ label. some (λ t. ok none);
  describe = λ v. "";
}

abbrev pub cached_task : TaskRecord
cached_task = record {
  id = 0;
  func = function "double" "apps";
  args = nil;
  kwargs = end;
  memoize = true;
  hashsum = some "h";
  depends = [];
  executor = "local";
  fail_count = 0;
  fail_cost = 0;
  fail_history = [];
  from_memo = none;
  ignore_for_cache = [];
  join = false;
  joins = none;
  try_id = 0;
  status = some launched;
  app_fu = 0;
}

abbrev outcome : ℕ → TaskOutcome
outcome n = record {
  task_id = n;
  memo_entry = record { payload = some (0 ∷ n ∷ []); fallback = none; exception = none };
  checkpoint_payload = some (1 ∷ n ∷ []);
}

-- The first append to the file fails halfway through.
abbrev one_failure : List Effect
one_failure = append_fails 1 restored ∷ []

abbrev pub kernel : List TaskOutcome → List Effect → Dfk
kernel os effects = record {
  heap = record { size = 1; content = λ r. num 5 };
  memo_lookup_table = [];
  disk = record { stream = some (1 ∷ 3 ∷ []); effects = effects };
  checkpointable_tasks = os;
  checkpointed_tasks = 0;
  record_of = λ t. cached_task;
  tasks = 0 ∷ [];
  task_state_counts = λ s. ℤ.pos 0;
  futures = λ f. none;
  launch_queue = [];
  outstanding = [];
  join_callbacks = [];
  published = [];
}

handle_all-AllFinal_example : AllFinal (config task_exit) (
    handle_all
      (config task_exit)
      (launch 0 ∷ execution 0 (returned 0) ∷ [])
      (kernel [] one_failure))
handle_all-AllFinal_example =
    handle_all-AllFinal (config task_exit) (launch 0 ∷ execution 0 (returned 0) ∷ [])
      (kernel [] one_failure) (record { each = tt })

-- Two tasks complete, and the first call of `checkpoint()` fails.
abbrev moments : List Moment
moments = completes (outcome 1) ∷ flushes ∷ completes (outcome 2) ∷ flushes ∷ []

not_task_exit : ¬ (periodic ≡ task_exit)
not_task_exit e = cc

live-ledger_example :
    ledger (live (config periodic) periodic moments (kernel [] one_failure))
    ≡ ledger (kernel [] one_failure) ++ payload_bytes (completed moments)
live-ledger_example =
    live-ledger (config periodic) periodic moments (kernel [] one_failure) not_task_exit (tt, tt)

checkpoint-Flushed_example :
    Flushed
      (kernel (outcome 1 ∷ []) one_failure)
      (checkpoint (config periodic) pending_outcomes (kernel (outcome 1 ∷ []) one_failure)).1
      (checkpoint (config periodic) pending_outcomes (kernel (outcome 1 ∷ []) one_failure)).0
checkpoint-Flushed_example =
    checkpoint-Flushed (config periodic) (kernel (outcome 1 ∷ []) one_failure) (tt, tt)

-- The record of the result is appended to the file.
complete_task-Transaction_example :
    (q : Publication) × ((complete_task (config task_exit) 0 exec_done 0 (kernel [] [])).1.published
      ≡ q ∷ [])
    × Transaction (config task_exit) (kernel [] []) exec_done 0 "h" q
unfolding dumps has_id
complete_task-Transaction_example =
    complete_task-Transaction (config task_exit) 0 exec_done 0 "h" (0 ∷ 5 ∷ []) (kernel [] []) refl
      refl refl refl refl refl refl refl tt

no_handler :
    (handler : Exn → TaskRecord → Result ℕ) (x : Exn) (task : TaskRecord) (c : ℕ)
    → (config task_exit).retry_handler ≡ some handler
    → handler x task ≡ ok c
    → 0 < c
no_handler handler x task c e f = cc

untried : AllPaid (config task_exit) (kernel [] [])
untried = record { each = λ t. record { paid = omega arith; allowed = omega arith } }

-- The task fails twice, and one retry is allowed.
handle_all-AllPaid_example : AllPaid (config task_exit) (
    handle_all
      (config task_exit)
      (execution 0 (excepted (app_error 3)) ∷ launch 0 ∷ execution 0 (excepted (app_error 4)) ∷ [])
      (kernel [] []))
handle_all-AllPaid_example =
    handle_all-AllPaid (config task_exit) no_handler
      (execution 0 (excepted (app_error 3)) ∷ launch 0 ∷ execution 0 (excepted (app_error 4)) ∷ [])
      (kernel [] []) untried

-- The same task in a later run, which has loaded an entry that holds 7.
abbrev resumed : Dfk
resumed = record (kernel [] []) { memo_lookup_table = ("h", pickled_entry (0 ∷ 7 ∷ [])) ∷ [] }

launch_task-hit_example :
    ((launch_task (config task_exit) 0 resumed).0 ≡ ok (finished (returned 1)))
    × ((launch_task (config task_exit) 0 resumed).1.heap.content 1 ≡ num 7)
    × ((launch_task (config task_exit) 0 resumed).1.outstanding ≡ [])
    × (launch_task (record (config task_exit) { executors = λ label. none }) 0 resumed
        ≡ launch_task (config task_exit) 0 resumed)
unfolding dumps make_hash call_bytes id_for_memo items_ids fields_ids filter_kw sort_keys lookup
launch_task-hit_example =
    launch_task-hit (config task_exit) 0 resumed "h" (num 7) (0 ∷ 7 ∷ []) refl refl refl refl refl
      (λ label. none)

-- The file of the kernel holds the record of 3.
complete_task-IsDurable_example :
    (q : Publication) × ((complete_task (config task_exit) 0 exec_done 0 (kernel [] [])).1.published
      ≡ q ∷ [])
    × IsDurable
        (config task_exit)
        (kernel [] [])
        0
        "h"
        (("h", num 3) ∷ [])
        ([], (kernel [] []).heap)
        q
unfolding dumps has_id
complete_task-IsDurable_example =
    complete_task-IsDurable (config task_exit) 0 exec_done 0 "h" (0 ∷ 5 ∷ []) (kernel [] [])
      (("h", num 3) ∷ []) ([], (kernel [] []).heap) refl refl refl refl refl refl refl refl tt
      (Dumped.written "h" (num 3) (1 ∷ 3 ∷ []) refl Dumped.none_written)
