-- ===== src/Tests/Submit.antt =====
-- Two submissions to a kernel without tasks: a second task that depends on the first.
use talents_parsl_checkpoint.Prelude.{◌⊎◌, has_id, remove, List, [], ◌∷◌, none, false, arith, refl}
use talents_parsl_checkpoint.Dataflow.Errors.{Result, ok, err, key_error}
use talents_parsl_checkpoint.Dataflow.Values.{Value, num, function, nil, cons, end}
use talents_parsl_checkpoint.Dataflow.Kernel.{Dfk, task_exit, returned}
use talents_parsl_checkpoint.Dataflow.Kernel.Events.{launch, execution, task_of, handle, handle_all}
use talents_parsl_checkpoint.Dataflow.Kernel.Counts.{sum_of}
use talents_parsl_checkpoint.Dataflow.Kernel.Counted.{IsCounted, handle_all-IsCounted}
use talents_parsl_checkpoint.Dataflow.Kernel.Submit.{
  Executors, Submission, Environment, Frontend, submit, submit_to, choose_executor, enter,
  add_input_deps, create_record, new_task, name_streams, gathered, make_pending, add_callbacks,
  add_done_callback,
}
use talents_parsl_checkpoint.Dataflow.Dependencies.{
  shallow_traverse_to_gather, shallow_traverse_to_unwrap,
}
use talents_parsl_checkpoint.Dataflow.Memo.Memoizer.{check_memo, prepare_success, update_memo}
use talents_parsl_checkpoint.Dataflow.Kernel.Publish.{
  update_task_state, complete_task, record_task_outcome, prepare, persist, memoize_entry, end_task,
  wipe_task, set_app_future,
}
use talents_parsl_checkpoint.Dataflow.Kernel.Update.{
  launch_if_ready, handle_exec_update, handle_result, handle_success, handle_body, relaunch_pending,
}
use talents_parsl_checkpoint.Dataflow.Kernel.Launch.{
  gather_all_deps, count_deps, launch_if_ready_async, launch_ready, unwrap_futures, set_unwrapped,
  launch_unwrapped, launch_task, check, launch_checked, submit_to_executor, submitted, attach,
  result_of,
}
use talents_parsl_checkpoint.Dataflow.Kernel.Submit.Answered.{IsAccepted, IsRefused, submit_result}
use talents_parsl_checkpoint.Dataflow.Kernel.Submit.Steps.{
  Step, submits, happens, cleans, take_steps, take_step, fire, fire_callbacks, dequeue, Launches,
  IsRegular,
}
use talents_parsl_checkpoint.Dataflow.Kernel.Submit.Awake.{IsAwake}
use talents_parsl_checkpoint.Dataflow.Kernel.Submit.Served.{take_steps-IsAwake}
use talents_parsl_checkpoint.Tests.Kernel.{config, cached_task, kernel}

abbrev empty_kernel : Dfk
empty_kernel = record (kernel [] []) {
  record_of = λ t. record cached_task { status = none };
  tasks = [];
}

abbrev first_choice : {A : Type 0} → List A → Result A
first_choice [] = err key_error
first_choice (x ∷ xs) = ok x

abbrev environment : Environment
environment = record {
  cfg = config task_exit;
  executor_labels = "local" ∷ [];
  choice = first_choice;
  is_auto_logname = λ v. false;
  std_autopath = λ task kw. num 0;
}

abbrev frontend : Frontend
frontend = record {
  dfk = empty_kernel;
  task_count = 0;
  cleanup_called = false;
  dep_callbacks = [];
  next_future = 0;
}

abbrev call : Value → Submission
call v = record {
  func = function "double" "apps";
  app_args = cons v nil;
  executors = Executors.all;
  cache = false;
  ignore_for_cache = none;
  app_kwargs = end;
  join = false;
}

abbrev one_task : Frontend
one_task = (submit environment (call (num 3)) frontend).1

submit_result_example :
    IsAccepted environment one_task.task_count one_task.next_future one_task
      (submit environment (call (Value.future 0)) one_task)
    ⊎ IsRefused one_task.task_count one_task (submit environment (call (Value.future 0)) one_task)
submit_result_example = submit_result environment (call (Value.future 0)) one_task

none_yet : IsCounted empty_kernel
unfolding sum_of
none_yet = record {
  ids = [];
  tallied = record { once = λ t. omega arith; others = λ t out. refl; counts = λ s. refl };
}

handle_all-IsCounted_example :
    IsCounted
      (handle_all (config task_exit) (execution 0 (returned 0) ∷ launch 0 ∷ []) empty_kernel)
handle_all-IsCounted_example =
    handle_all-IsCounted (config task_exit) (execution 0 (returned 0) ∷ launch 0 ∷ []) empty_kernel
      none_yet

no_states : IsAwake frontend
unfolding sum_of
no_states = record {
  called = λ u. tt;
  woken = λ u e. cc;
  fresh = λ u later. refl;
  counted = none_yet;
}

-- Two tasks, the second of which waits for the first.
abbrev steps : List Step
steps =
    submits (call (num 3))
    ∷ submits (call (Value.future 0))
    ∷ happens (launch 0)
    ∷ happens (execution 0 (returned 0))
    ∷ happens (launch 1)
    ∷ cleans
    ∷ []

steps-IsRegular : IsRegular environment steps frontend
unfolding IsRegular Launches task_of dequeue take_step fire_callbacks fire submit handle submit_to
    choose_executor enter add_input_deps create_record new_task name_streams gathered make_pending
    add_callbacks add_done_callback gather_all_deps update_task_state launch_if_ready count_deps
    launch_if_ready_async launch_ready unwrap_futures set_unwrapped launch_unwrapped launch_task
    check launch_checked submit_to_executor submitted attach result_of shallow_traverse_to_gather
    shallow_traverse_to_unwrap check_memo remove handle_exec_update handle_result handle_success
    handle_body relaunch_pending complete_task record_task_outcome prepare persist memoize_entry
    end_task wipe_task set_app_future prepare_success update_memo has_id
steps-IsRegular = ((omega arith, refl), ((omega arith, tt), ((omega arith, refl), tt)))

take_steps-IsAwake_example : IsAwake (take_steps environment steps frontend)
take_steps-IsAwake_example = take_steps-IsAwake environment steps frontend steps-IsRegular no_states
