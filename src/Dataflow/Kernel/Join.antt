-- ===== src/Dataflow/Kernel/Join.antt =====
-- solution/dflow.py, `handle_join_update`: a Future that a join task waits for has become done.
use talents_parsl_checkpoint.Prelude.{
  ℕ, ◌+◌, Bool, true, false, ◌&&◌, Option, none, some, List, [], ◌∷◌, ◌++◌, if◌then◌else◌,
}
use talents_parsl_checkpoint.Dataflow.Errors.{
  Causes, no_cause, cause, join_error, type_error, assertion_error, ok, err,
}
use talents_parsl_checkpoint.Dataflow.States.{States, joining, failed, exec_done, ◌is◌}
use talents_parsl_checkpoint.Dataflow.Values.{Value, Items, alloc, list, nil, cons}
use talents_parsl_checkpoint.Dataflow.Tasks.{Joinable, one, many}
use talents_parsl_checkpoint.Dataflow.Memo.{result, raised}
use talents_parsl_checkpoint.Dataflow.Kernel.{
  Config, Dfk, Action, pure, throw, gets, modify, ◌>>=◌, ◌>>◌,
}
use talents_parsl_checkpoint.Dataflow.Kernel.Publish.{
  set_record, update_task_state, fail_task, complete_task,
}

abbrev pub status_is : Option States → States → Bool
status_is none s = false
status_is (some t) s = t is s

abbrev pub is_done : Dfk → ℕ → Bool
is_done d f = elim (d.futures f) [ none ↦ false | some o ↦ true ]

all_done : Dfk → List ℕ → Bool
all_done d [] = true
all_done d (f ∷ fs) = is_done d f && all_done d fs

-- A list of joinables has to be done as a whole. A single one is done, since this is its callback.
joinables_done : Dfk → Joinable → Bool
unfolding all_done
joinables_done d (one f) = is_done d f
joinables_done d (many fs) = all_done d fs

abbrev joinable_list : Joinable → List ℕ
joinable_list (one f) = f ∷ []
joinable_list (many fs) = fs

-- The exceptions of the joinables, each with its description.
gather_exceptions : Config → Dfk → List ℕ → Causes
gather_exceptions cfg d [] = no_cause
gather_exceptions cfg d (f ∷ fs) =
    let rest = gather_exceptions cfg d fs in
    elim (d.futures f) [ some (raised x) ↦ cause x (cfg.describe (Value.future f)) rest | _ ↦ rest ]

-- The list of the results, as a value.
results : Dfk → List ℕ → Items
results d [] = nil
results d (f ∷ fs) =
    let rest = results d fs in
    elim (d.futures f) [ some (result r) ↦ cons (d.heap.content r) rest | _ ↦ rest ]

-- The result of a single joinable is the same object; of a list it is a new list.
unfoldable pub join_result : Joinable → Action ℕ
unfolding results
join_result (one f) d = elim (d.futures f) [
  | some (result r) ↦ (ok r, d)
  | _ ↦ (err assertion_error, d)
]
join_result (many fs) d =
    let (r, h) = alloc (list (results d fs)) d.heap in (ok r, record d { heap = h })

unfoldable pub join_causes : Config → ℕ → Joinable → Causes → Action (Unit {0})
join_causes cfg t js no_cause = do r ← join_result js; complete_task cfg t exec_done r
join_causes cfg t js (cause x tid more) = do
  let e = join_error (cause x tid more) t
  modify (
      set_record t λ task. record task {
        fail_history = task.fail_history ++ e ∷ [];
        fail_count = task.fail_count + 1;
      })
  update_task_state t failed
  fail_task cfg t e

unfoldable pub join_ready : Config → ℕ → Option Joinable → Action (Unit {0})
unfolding joinables_done gather_exceptions
join_ready cfg t none = throw type_error
join_ready cfg t (some js) = do
  d ← gets (λ d. d)
  if joinables_done d js
      then join_causes cfg t js (gather_exceptions cfg d (joinable_list js))
      else pure tt

-- A callback for a task that is not joining does nothing.
unfoldable pub handle_join_update : Config → ℕ → Action (Unit {0})
handle_join_update cfg t = do
  task ← gets (λ d. d.record_of t)
  if status_is task.status joining then join_ready cfg t task.joins else pure tt
