-- ===== src/Dataflow/Kernel/Submit.antt =====
-- solution/dflow.py: `submit`, the callbacks that it leaves on the dependencies, and `cleanup`. No file
-- is staged, and monitoring is not configured.
pub mod Accepted
pub mod Answered
pub mod Steps
pub mod Fired
pub mod Tallies
pub mod Awake
pub mod Handled
pub mod Served
use text.Mathlib.Text.{◌==◌ as str_eq}
use talents_parsl_checkpoint.Prelude.{
  ℕ, ◌+◌, ◌==◌, String, Bool, true, false, not, ◌||◌, Option, none, some, List, [], ◌∷◌, ◌++◌,
  has_id, if◌then◌else◌,
}
use talents_parsl_checkpoint.Dataflow.Errors.{
  no_data_flow_kernel, already_cleaned_up, value_error, type_error, assertion_error, Result, ok,
  err,
}
use talents_parsl_checkpoint.Dataflow.States.{unsched, pending}
use talents_parsl_checkpoint.Dataflow.Values.{
  Value, Items, Fields, nil, end, field, none_value, boolean, num, str, list, tuple, dict,
}
use talents_parsl_checkpoint.Dataflow.Tasks.{TaskRecord}
use talents_parsl_checkpoint.Dataflow.Memo.Identity.{get_kwarg}
use talents_parsl_checkpoint.Dataflow.Kernel.{CheckpointMode, Config, Dfk}
use talents_parsl_checkpoint.Dataflow.Kernel.Publish.{
  set_record, update_task_state, pending_outcomes, checkpoint,
}
use talents_parsl_checkpoint.Dataflow.Kernel.Join.{is_done}
use talents_parsl_checkpoint.Dataflow.Kernel.Update.{launch_if_ready}
use talents_parsl_checkpoint.Dataflow.Kernel.Launch.{gather_all_deps}

-- The argument `executors`: 'all', a list of labels, or another value.
pub data Executors : Type 0 where
  all : Executors
  labels : List String → Executors
  invalid : Executors

-- The arguments of `submit`.
pub record Submission : Type 0 where
  pub func : Value
  pub app_args : Items
  pub executors : Executors
  pub cache : Bool
  pub ignore_for_cache : Option (List String)
  pub app_kwargs : Fields
  pub join : Bool

-- What `submit` takes from elsewhere: the labels of the executors but the internal one,
-- `random.choice`, the test for AUTO_LOGNAME (-1, which is an `other` value), and `std_autopath` or its
-- default.
pub record Environment : Type 0 where
  pub cfg : Config
  pub executor_labels : List String
  pub choice : List String → Result String
  pub is_auto_logname : Value → Bool
  pub std_autopath : TaskRecord → String → Value

-- The kernel with the state that only `submit` and `cleanup` use. A callback of `submit` is a Future
-- and the task that waits for it. `next_future` is the ID of the next Future.
pub record Frontend : Type 0 where
  pub dfk : Dfk
  pub task_count : ℕ
  pub cleanup_called : Bool
  pub dep_callbacks : List (ℕ × ℕ)
  pub next_future : ℕ

unfoldable pub choices : List String → Executors → Option (List String)
choices known all = some known
choices known (labels ls) = some ls
choices known invalid = none

-- An exception of `random.choice`, of an empty list, leaves `submit`.
unfoldable pub choose_executor : Environment → Executors → Result String
unfolding choices
choose_executor env executors = elim (choices env.executor_labels executors) [
  | none ↦ err value_error
  | some ls ↦ env.choice ls
]

abbrev listed : Option (List String) → List String
listed none = []
listed (some ks) = ks

-- The new record. It has no state before the first `update_task_state`.
unfoldable pub new_task : (task_id app_fu : ℕ) → String → Submission → TaskRecord
new_task t f label s = record {
  id = t;
  func = s.func;
  args = s.app_args;
  kwargs = s.app_kwargs;
  memoize = s.cache;
  hashsum = none;
  depends = [];
  executor = label;
  fail_count = 0;
  fail_cost = 0;
  fail_history = [];
  from_memo = none;
  ignore_for_cache = listed s.ignore_for_cache;
  join = s.join;
  joins = none;
  try_id = 0;
  status = none;
  app_fu = f;
}

set_kwarg : String → Value → Fields → Fields
set_kwarg k w end = end
set_kwarg k w (field j v fs) = if str_eq j k then field j w fs else field j v (set_kwarg k w fs)

has_name : String → List String → Bool
has_name k [] = false
has_name k (j ∷ ks) = str_eq j k || has_name k ks

-- `if kw in app_kwargs`, and the value asks for a name.
unfoldable pub name_stream : Environment → String → Option Value → TaskRecord → TaskRecord
unfolding set_kwarg has_name
name_stream env kw none task = task
name_stream env kw (some v) task =
    if env.is_auto_logname v
    then record task {
      ignore_for_cache =
          if has_name kw task.ignore_for_cache
          then task.ignore_for_cache
          else task.ignore_for_cache ++ kw ∷ [];
      kwargs = set_kwarg kw (env.std_autopath task kw) task.kwargs;
    }
    else task

unfoldable pub name_streams : Environment → TaskRecord → TaskRecord
unfolding name_stream
name_streams env task =
    let named = name_stream env "stdout" (get_kwarg "stdout" task.kwargs) task in
    name_stream env "stderr" (get_kwarg "stderr" named.kwargs) named

-- `if v`
truthy : Value → Bool
truthy none_value = false
truthy (boolean b) = b
truthy (num n) = not (n == 0)
truthy (str s) = not (str_eq s "")
truthy (list nil) = false
truthy (tuple nil) = false
truthy (dict end) = false
truthy v = true

-- `check_staging_inhibited`
check_staging_inhibited : Option Value → Bool
unfolding truthy
check_staging_inhibited none = false
check_staging_inhibited (some v) = truthy v

-- The loop of `_add_input_deps` over `inputs`, which writes to them: a list stays as it is, for it
-- has no file, and a tuple that is not empty raises. Other values of `inputs` are taken as ones that
-- cannot be iterated over, as when the dependencies are gathered.
stage_inputs : Option Value → Result (Unit {0})
stage_inputs none = ok tt
stage_inputs (some (list xs)) = ok tt
stage_inputs (some (tuple nil)) = ok tt
stage_inputs (some v) = err type_error

unfoldable pub add_input_deps : Fields → Result (Unit {0})
unfolding check_staging_inhibited stage_inputs
add_input_deps kwargs =
    if check_staging_inhibited (get_kwarg "_parsl_staging_inhibit" kwargs)
    then ok tt
    else stage_inputs (get_kwarg "inputs" kwargs)

-- `d.add_done_callback(callback_adapter)`: a Future that is done calls it at once.
unfoldable pub add_done_callback : (f t : ℕ) → Frontend → Frontend
add_done_callback f t s =
    if is_done s.dfk f
    then record s { dfk = (launch_if_ready t s.dfk).1 }
    else record s { dep_callbacks = s.dep_callbacks ++ (f, t) ∷ [] }

unfoldable pub add_callbacks : List ℕ → ℕ → Frontend → Frontend
add_callbacks [] t s = s
add_callbacks (f ∷ fs) t s = add_callbacks fs t (add_done_callback f t s)

-- The dependencies are known: the task is pending, and its launch is looked at.
unfoldable pub make_pending : List ℕ → ℕ → Frontend → Frontend
make_pending depends t s =
    let d = set_record t (λ task. record task { depends = depends }) s.dfk in
    let waits = add_callbacks depends t (record s { dfk = (update_task_state t pending d).1 }) in
    record waits { dfk = (launch_if_ready t waits.dfk).1 }

unfoldable pub gathered : Result (List ℕ) → ℕ → ℕ → Frontend → Result ℕ × Frontend
gathered (err x) t f s = (err x, s)
gathered (ok depends) t f s = (ok f, make_pending depends t s)

-- The record in the kernel, with its AppFuture and the state `unsched`.
unfoldable pub create_record : Environment → Submission → String → ℕ → Frontend → Frontend
unfolding new_task name_streams
create_record env sub label t s =
    let d = set_record t (λ _. new_task t s.next_future label sub) s.dfk in
    let e = (update_task_state t unsched d).1 in
    record s { dfk = set_record t (name_streams env) e; next_future = s.next_future + 1 }

abbrev enter_task : ℕ → Frontend → Frontend
enter_task t s = record s { dfk = record (s.dfk) { tasks = s.dfk.tasks ++ t ∷ [] } }

abbrev dependencies : Environment → TaskRecord → Result (List ℕ)
dependencies env task = gather_all_deps env.cfg.dependency_resolver task.args task.kwargs

unfoldable pub enter : Environment → Result (Unit {0}) → (t f : ℕ) → Frontend → Result ℕ × Frontend
enter env (err x) t f a = (err x, a)
enter env (ok _) t f a =
    if has_id t a.dfk.tasks
    then (err assertion_error, a)
    else gathered (dependencies env (a.dfk.record_of t)) t f (enter_task t a)

unfoldable pub submit_to :
    Environment → Submission → Result String → ℕ → Frontend → Result ℕ × Frontend
submit_to env sub (err x) t s = (err x, s)
submit_to env sub (ok label) t s =
    let a = create_record env sub label t s in
    enter env (add_input_deps (a.dfk.record_of t).kwargs) t s.next_future a

-- `submit` gives the AppFuture.
unfoldable pub submit : Environment → Submission → Frontend → Result ℕ × Frontend
submit env sub s =
    if s.cleanup_called
    then (err no_data_flow_kernel, s)
    else submit_to env sub (choose_executor env sub.executors) s.task_count
        (record s { task_count = s.task_count + 1 })

-- The parts of `cleanup` that concern the tasks: a second call raises, and the pending outcomes are
-- written if there is a checkpoint mode.
abbrev with_dfk : Frontend → Result (Unit {0}) × Dfk → Result (Unit {0}) × Frontend
with_dfk s (r, d) = (r, record s { dfk = d })

unfoldable pub write_at_cleanup :
    Config → Option CheckpointMode → Frontend → Result (Unit {0}) × Frontend
write_at_cleanup cfg none s = (ok tt, s)
write_at_cleanup cfg (some mode) s = with_dfk s (checkpoint cfg pending_outcomes s.dfk)

unfoldable pub cleanup : Config → Frontend → Result (Unit {0}) × Frontend
cleanup cfg s =
    if s.cleanup_called
    then (err already_cleaned_up, s)
    else write_at_cleanup cfg cfg.checkpoint_mode (record s { cleanup_called = true })
