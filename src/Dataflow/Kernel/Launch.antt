-- ===== src/Dataflow/Kernel/Launch.antt =====
-- solution/dflow.py: `_gather_all_deps`, `_count_deps`, `_unwrap_futures`, `launch_task` and
-- `_launch_if_ready_async`. Monitoring is not configured.
use talents_parsl_checkpoint.Prelude.{
  ℕ, suc, ◌==◌, String, true, false, ◌&&◌, Option, none, some, List, [], ◌∷◌, ◌++◌, if◌then◌else◌,
}
use text.Mathlib.Text.{◌==◌ as str_eq}
use talents_parsl_checkpoint.Dataflow.Errors.{
  Causes, no_cause, cause, dependency_error, type_error, value_error, Result, ok, err,
}
use talents_parsl_checkpoint.Dataflow.States.{pending, dep_fail, launched}
use talents_parsl_checkpoint.Dataflow.Values.{
  Value, Items, Fields, list, tuple, nil, cons, end, field,
}
use talents_parsl_checkpoint.Dataflow.Dependencies.{DependencyResolver}
use talents_parsl_checkpoint.Dataflow.Tasks.{TaskRecord}
use talents_parsl_checkpoint.Dataflow.Memo.{Outcome, result, raised}
use talents_parsl_checkpoint.Dataflow.Memo.Identity.{get_kwarg}
use talents_parsl_checkpoint.Dataflow.Memo.Memoizer.{check_memo}
use talents_parsl_checkpoint.Dataflow.Kernel.{
  ExecResult, returned, excepted, Config, Dfk, update, Action, pure, throw, gets, try_except,
  dropping, modify, ◌>>=◌, ◌>>◌,
}
use talents_parsl_checkpoint.Dataflow.Kernel.Publish.{set_record, update_task_state}
use talents_parsl_checkpoint.Dataflow.Kernel.Join.{status_is, is_done}
use talents_parsl_checkpoint.Dataflow.Kernel.Update.{handle_exec_update}

-- `for dep in kwargs.get('inputs', [])`, for the lists and the tuples; other values of `inputs` are
-- taken as ones that cannot be iterated over.
abbrev pub input_items : Option Value → Result Items
input_items none = ok nil
input_items (some (list xs)) = ok xs
input_items (some (tuple xs)) = ok xs
input_items (some v) = err type_error

module _ (res : DependencyResolver) where
  unfoldable pub gather_args : Items → List ℕ
  gather_args nil = []
  gather_args (cons v xs) = res.traverse_to_gather v ++ gather_args xs

  unfoldable pub gather_kwargs : Fields → List ℕ
  gather_kwargs end = []
  gather_kwargs (field k v fs) = res.traverse_to_gather v ++ gather_kwargs fs

  -- `_gather_all_deps`: the arguments, the keyword arguments, and the items of `inputs`.
  unfoldable pub gather_all_deps : Items → Fields → Result (List ℕ)
  unfolding gather_args gather_kwargs
  gather_all_deps args kwargs = elim (input_items (get_kwarg "inputs" kwargs)) [
    | ok inputs ↦ ok (gather_args args ++ (gather_kwargs kwargs ++ gather_args inputs))
    | err x ↦ err x
  ]

-- `_count_deps`: the Futures that are not done.
unfoldable pub count_deps : Dfk → List ℕ → ℕ
count_deps d [] = 0
count_deps d (f ∷ fs) = let rest = count_deps d fs in if is_done d f then rest else suc rest

-- `Future.result()` of a Future, as a value.
unfoldable pub result_of : Dfk → ℕ → Option (Result Value)
result_of d f = elim (d.futures f) [
  | none ↦ none
  | some (result r) ↦ some (ok (d.heap.content r))
  | some (raised x) ↦ some (err x)
]

abbrev pub append_causes : Causes → Causes → Causes
append_causes no_cause ds = ds
append_causes (cause x tid cs) ds = cause x tid (append_causes cs ds)

module _ (cfg : Config) (d : Dfk) where
  abbrev pub unwrap : Value → Result Value
  unwrap v = cfg.dependency_resolver.traverse_to_unwrap (result_of d) v

  -- An argument that fails is left out, and its exception is kept.
  unfoldable pub unwrap_args : Items → Items × Causes
  unwrap_args nil = (nil, no_cause)
  unwrap_args (cons v xs) =
      let (ys, cs) = unwrap_args xs in
      elim (unwrap v) [ ok w ↦ (cons w ys, cs) | err x ↦ (ys, cause x (cfg.describe v) cs) ]

  -- A keyword argument that fails keeps its value.
  unfoldable pub unwrap_kwargs : Fields → Fields × Causes
  unwrap_kwargs end = (end, no_cause)
  unwrap_kwargs (field k v fs) =
      let (gs, cs) = unwrap_kwargs fs in
      elim (unwrap v) [
        | ok w ↦ (field k w gs, cs)
        | err x ↦ (field k v gs, cause x (cfg.describe v) cs)
      ]

  unfoldable pub replace_kwarg : String → Value → Fields → Fields
  replace_kwarg k w end = end
  replace_kwarg k w (field j v fs) =
      if str_eq j k then field j w fs else field j v (replace_kwarg k w fs)

  -- The items of `inputs` are unwrapped into a new list, and failing items are left out.
  unfoldable pub unwrap_inputs : Option Value → Fields → Result (Fields × Causes)
  unfolding unwrap_args replace_kwarg
  unwrap_inputs none kwargs = ok (kwargs, no_cause)
  unwrap_inputs (some v) kwargs = elim (input_items (some v)) [
    | err x ↦ err x
    | ok xs ↦ let (ys, cs) = unwrap_args xs in ok (replace_kwarg "inputs" (list ys) kwargs, cs)
  ]

  unfoldable pub join_unwrapped :
      Items × Causes → Fields × Causes → Result (Fields × Causes) → Result (Items × Causes) × Fields
  join_unwrapped (args, ca) (kwargs, ck) (err x) = (err x, kwargs)
  join_unwrapped (args, ca) (_, ck) (ok (kwargs, ci)) =
      (ok (args, append_causes ca (append_causes ck ci)), kwargs)

  -- `_unwrap_futures`: the new arguments with the exceptions of the parameters that failed, and the
  -- keyword arguments. These are written in place: they are unwrapped also if `inputs` then raises.
  unfoldable pub unwrap_futures : Items → Fields → Result (Items × Causes) × Fields
  unfolding unwrap_args unwrap_kwargs unwrap_inputs join_unwrapped
  unwrap_futures args kwargs =
      let (kwargs', ck) = unwrap_kwargs kwargs in
      join_unwrapped (unwrap_args args) (kwargs', ck)
        (unwrap_inputs (get_kwarg "inputs" kwargs') kwargs')

-- What `launch_task` returns: a Future that is done, or one that the executor will end.
pub data ExecFuture : Type 0 where
  finished : ExecResult → ExecFuture
  running : ExecFuture

abbrev exec_result : Outcome → ExecResult
exec_result (result r) = returned r
exec_result (raised x) = excepted x

unfoldable pub submitted : ℕ → Result (Option ExecResult) → Action ExecFuture
submitted t (err x) = throw x
submitted t (ok f) = do
  update_task_state t launched
  pure (elim f [ none ↦ running | some r ↦ finished r ])

unfoldable pub submit_to_executor :
    ℕ → Option (TaskRecord → Result (Option ExecResult)) → Action ExecFuture
submit_to_executor t none = throw value_error
submit_to_executor t (some submit) = do
  answer ← gets (λ d. submit (d.record_of t))
  submitted t answer

module _ (cfg : Config) where
  unfoldable pub check : ℕ → Action (Option Outcome)
  check t d =
      let c = check_memo cfg.rt cfg.app_cache (d.record_of t) d.memo_lookup_table d.heap in
      (c.found, record d { record_of = update d.record_of t c.task; heap = c.heap })

  unfoldable pub launch_checked : ℕ → Option Outcome → Action ExecFuture
  launch_checked t (some o) = do
    modify (set_record t λ task. record task { from_memo = some true })
    pure (finished (exec_result o))
  launch_checked t none = do
    modify (set_record t λ task. record task { from_memo = some false })
    label ← gets (λ d. (d.record_of t).executor)
    submit_to_executor t (cfg.executors label)

  unfoldable pub launch_task : ℕ → Action ExecFuture
  launch_task t = do found ← check t; launch_checked t found

  -- The launch of a task whose parameters are unwrapped; a failure to launch becomes a Future.
  unfoldable pub launch_unwrapped : ℕ → Causes → Action ExecFuture
  launch_unwrapped t no_cause =
      try_except (launch_task t) (λ f. pure f) (λ x. pure (finished (excepted x)))
  launch_unwrapped t (cause x tid more) = do
    update_task_state t dep_fail
    pure (finished (excepted (dependency_error (cause x tid more) t)))

  -- `exec_fu.add_done_callback(…)`: at once if it is done, and an exception of that is dropped.
  unfoldable pub attach : ℕ → ExecFuture → Action (Unit {0})
  attach t running = modify (λ d. record d { outstanding = t ∷ d.outstanding })
  attach t (finished r) = dropping (handle_exec_update cfg t (some r))

  unfoldable pub set_unwrapped : ℕ → Result (Items × Causes) × Fields → Action Causes
  set_unwrapped t (err x, kwargs) = do
    modify (set_record t λ task. record task { kwargs = kwargs })
    throw x
  set_unwrapped t (ok (args, cs), kwargs) = do
    modify (set_record t λ task. record task { args = args; kwargs = kwargs })
    pure cs

  unfoldable pub launch_ready : ℕ → Action (Unit {0})
  launch_ready t = do
    new ← gets (λ d. unwrap_futures cfg d (d.record_of t).args (d.record_of t).kwargs)
    cs ← set_unwrapped t new
    f ← launch_unwrapped t cs
    attach t f

  -- `_launch_if_ready_async`
  unfoldable pub launch_if_ready_async : ℕ → Action (Unit {0})
  launch_if_ready_async t = do
    d ← gets (λ d. d)
    if status_is (d.record_of t).status pending && count_deps d (d.record_of t).depends == 0
        then launch_ready t
        else pure tt
