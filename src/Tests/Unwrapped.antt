-- ===== src/Tests/Unwrapped.antt =====
-- A task with two dependencies that are done: an argument, and an item of `inputs`.
use talents_parsl_checkpoint.Prelude.{String, ◌≡◌, refl, some, [], ◌∷◌}
use talents_parsl_checkpoint.Dataflow.Errors.{no_cause, ok}
use talents_parsl_checkpoint.Dataflow.Values.{
  Items, Fields, num, tuple, future, nil, cons, end, field,
}
use talents_parsl_checkpoint.Dataflow.Memo.{result}
use talents_parsl_checkpoint.Dataflow.Memo.Identity.{get_kwarg}
use talents_parsl_checkpoint.Dataflow.Dependencies.{shallow_traverse_to_gather}
use talents_parsl_checkpoint.Dataflow.Kernel.{task_exit, Dfk}
use talents_parsl_checkpoint.Dataflow.Kernel.Launch.{
  gather_all_deps, gather_args, gather_kwargs, unwrap_futures,
}
use talents_parsl_checkpoint.Dataflow.Kernel.Unwrapped.{with_shallow, AreResolved, IsKwargResolved}
use talents_parsl_checkpoint.Dataflow.Kernel.Unwrapped.Inputs.{unwrap_futures-AreResolved}
use talents_parsl_checkpoint.Tests.Kernel.{config, kernel}

abbrev all_done : Dfk
all_done = record (kernel [] []) { futures = λ f. some (result 0) }

abbrev two_args : Items
two_args = cons (future 3) (cons (num 1) nil)

abbrev named_args : Fields
named_args = field "x" (num 2) (field "inputs" (tuple (cons (future 4) nil)) end)

two_deps :
    gather_all_deps (with_shallow (config task_exit)).dependency_resolver two_args named_args
    ≡ ok (3 ∷ 4 ∷ [])
unfolding gather_all_deps gather_args gather_kwargs shallow_traverse_to_gather
two_deps = refl

unwrap_futures-AreResolved_example :
    (new : Items) × (after : Fields) × (unwrap_futures
        (with_shallow (config task_exit))
        all_done
        two_args
        named_args
      ≡ (ok (new, no_cause), after))
    × AreResolved all_done two_args new
    × ((k : String) → IsKwargResolved all_done k (get_kwarg k named_args) (get_kwarg k after))
unwrap_futures-AreResolved_example =
    unwrap_futures-AreResolved (config task_exit) all_done two_args named_args (3 ∷ 4 ∷ []) two_deps
      ((0, refl), ((0, refl), tt))
