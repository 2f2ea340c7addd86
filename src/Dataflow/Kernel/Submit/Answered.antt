-- ===== src/Dataflow/Kernel/Submit/Answered.antt =====
-- The two answers of `submit` (solution/dflow.py): an AppFuture, or an exception.
use talents_parsl_checkpoint.Prelude.{
  ℕ, String, ◌+◌, ◌≡◌, ◌≢◌, ◌⊎◌, inl, inr, refl, ap, ◌∙◌, Bool, true, false, Option, none, some,
  List, [], ◌∷◌, ◌++◌, has_id, Bool-cases, if◌then◌else◌,
}
use talents_parsl_checkpoint.Dataflow.Errors.{
  Exn, no_data_flow_kernel, Result, ok, err, Result-cases,
}
use talents_parsl_checkpoint.Dataflow.States.{unsched}
use talents_parsl_checkpoint.Dataflow.Kernel.Publish.{set_record, update_task_state}
use talents_parsl_checkpoint.Dataflow.Values.{Value}
use talents_parsl_checkpoint.Dataflow.Tasks.{TaskRecord}
use talents_parsl_checkpoint.Dataflow.Memo.Identity.{get_kwarg}
use talents_parsl_checkpoint.Dataflow.Kernel.Local.{update_self, update_other}
use talents_parsl_checkpoint.Dataflow.Kernel.Submit.{
  Submission, Environment, Frontend, choose_executor, new_task, name_stream, name_streams,
  make_pending, gathered, create_record, enter_task, add_input_deps, enter, submit_to, submit,
  dependencies,
}
use talents_parsl_checkpoint.Dataflow.Kernel.Submit.Accepted.{
  IsWaiting, IsExtended, make_pending-IsWaiting, make_pending-IsExtended, make_pending-args,
  make_pending-tasks,
}

-- The task t is accepted with the AppFuture f: it is in the table, and waits for the Futures that are
-- gathered from its arguments.
pub record IsAccepted (env : Environment) (t f : ℕ) (s : Frontend) (r : Result ℕ × Frontend)
    : Type 0 where
  pub returns : r.0 ≡ ok f
  pub depends : List ℕ
  pub gathers : dependencies env (r.1.dfk.record_of t) ≡ ok depends
  pub waiting : IsWaiting t depends r.1
  pub entered : r.1.dfk.tasks ≡ s.dfk.tasks ++ t ∷ []
  pub extended : IsExtended t s r.1

-- The submission raises: no launch is queued, and no callback is left behind. Its record, if it was made,
-- has not become pending, and has no dependency.
pub record IsRefused (t : ℕ) (s : Frontend) (r : Result ℕ × Frontend) : Type 0 where
  pub exception : Exn
  pub returns : r.0 ≡ err exception
  pub own :
      (r.1.dfk.record_of t ≡ s.dfk.record_of t)
      ⊎ (((r.1.dfk.record_of t).status ≡ some unsched) × ((r.1.dfk.record_of t).depends ≡ []))
  pub others : (u : ℕ) → t ≢ u → r.1.dfk.record_of u ≡ s.dfk.record_of u
  pub futures : r.1.dfk.futures ≡ s.dfk.futures
  pub queue : r.1.dfk.launch_queue ≡ s.dfk.launch_queue
  pub callbacks : r.1.dep_callbacks ≡ s.dep_callbacks

-- The names of the streams leave alone the state and the dependencies.
pub record IsNamed (t u : TaskRecord) : Type 0 where
  pub state : u.status ≡ t.status
  pub depends : u.depends ≡ t.depends

name_stream-IsNamed :
    (env : Environment) (kw : String) (v : Option Value) (t : TaskRecord)
    → IsNamed t (name_stream env kw v t)
unfolding name_stream
name_stream-IsNamed env kw none t = record { state = refl; depends = refl }
name_stream-IsNamed env kw (some v) t = elim (Bool-cases (env.is_auto_logname v)) [
  | inl auto ↦ rw auto (record { state = refl; depends = refl })
  | inr plain ↦ rw plain (record { state = refl; depends = refl })
]

pub name_streams-IsNamed : (env : Environment) (t : TaskRecord) → IsNamed t (name_streams env t)
unfolding name_streams
name_streams-IsNamed env t =
    let out = name_stream-IsNamed env "stdout" (get_kwarg "stdout" t.kwargs) t in
    let named = name_stream env "stdout" (get_kwarg "stdout" t.kwargs) t in
    let both = name_stream-IsNamed env "stderr" (get_kwarg "stderr" named.kwargs) named in
    record { state = both.state ∙ out.state; depends = both.depends ∙ out.depends }

module _ (env : Environment) (sub : Submission) (label : String) (t : ℕ) (s : Frontend) where
  abbrev added : Frontend
  added = create_record env sub label t s

  create_record-other : (u : ℕ) → t ≢ u → added.dfk.record_of u ≡ s.dfk.record_of u
  unfolding create_record update_task_state
  create_record-other u ne =
      let new = set_record t (λ _. new_task t s.next_future label sub) s.dfk in
      let e = (update_task_state t unsched new).1 in
      update_other e.record_of t u (name_streams env (e.record_of t)) ne
      ∙ update_other new.record_of t u _ ne
      ∙ update_other s.dfk.record_of t u _ ne

  created_status : (added.dfk.record_of t).status ≡ some unsched
  unfolding create_record update_task_state
  created_status =
      let new = set_record t (λ _. new_task t s.next_future label sub) s.dfk in
      let e = (update_task_state t unsched new).1 in
      ap (λ r. r.status) (update_self e.record_of t (name_streams env (e.record_of t)))
      ∙ (name_streams-IsNamed env (e.record_of t)).state
      ∙ ap (λ r. r.status) (update_self new.record_of t _)

  created_depends : (added.dfk.record_of t).depends ≡ []
  unfolding create_record update_task_state new_task
  created_depends =
      let new = set_record t (λ _. new_task t s.next_future label sub) s.dfk in
      let e = (update_task_state t unsched new).1 in
      ap (λ r. r.depends) (update_self e.record_of t (name_streams env (e.record_of t)))
      ∙ (name_streams-IsNamed env (e.record_of t)).depends
      ∙ ap (λ r. r.depends) (update_self new.record_of t _)
      ∙ ap (λ r. r.depends) (update_self s.dfk.record_of t _)

  raises_early : (x : Exn) → IsRefused t s (err x, added)
  unfolding create_record update_task_state
  raises_early x = record {
    exception = x;
    returns = refl;
    own = inr (created_status, created_depends);
    others = create_record-other;
    futures = refl;
    queue = refl;
    callbacks = refl;
  }

  raises_late : (x : Exn) → IsRefused t s (err x, enter_task t added)
  unfolding create_record update_task_state
  raises_late x = record {
    exception = x;
    returns = refl;
    own = inr (created_status, created_depends);
    others = create_record-other;
    futures = refl;
    queue = refl;
    callbacks = refl;
  }

  accepted :
      (f : ℕ) (depends : List ℕ)
      → dependencies env (added.dfk.record_of t) ≡ ok depends
      → IsAccepted env t f s (ok f, make_pending depends t (enter_task t added))
  unfolding create_record update_task_state
  accepted f depends gathers =
      let e = enter_task t added in
      let x = make_pending-IsExtended depends t e in
      record {
        returns = refl;
        depends = depends;
        gathers = make_pending-args depends t e env ∙ gathers;
        waiting = make_pending-IsWaiting depends t e;
        entered = make_pending-tasks depends t e;
        extended = record {
          others = λ u ne. x.others u ne ∙ create_record-other u ne;
          futures = x.futures;
          queue = x.queue;
          callbacks = x.callbacks;
        };
      }

  enter_result :
      (f : ℕ) (staged : Result (Unit {0}))
      → IsAccepted env t f s (enter env staged t f added)
        ⊎ IsRefused t s (enter env staged t f added)
  unfolding enter gathered
  enter_result f (err x) = inr (raises_early x)
  enter_result f (ok _) = elim (Bool-cases (has_id t added.dfk.tasks)) [
    | inl there ↦ rw there (inr (raises_early _))
    | inr new ↦ elim (Result-cases (dependencies env (added.dfk.record_of t))) [
      | inl (depends, gathers) ↦ rw (new, gathers) (inl (accepted f depends gathers))
      | inr (x, raises) ↦ rw (new, raises) (inr (raises_late x))
    ]
  ]

submit_to_result :
    (env : Environment) (sub : Submission) (label : Result String) (t : ℕ) (s : Frontend)
    → IsAccepted env t s.next_future s (submit_to env sub label t s)
      ⊎ IsRefused t s (submit_to env sub label t s)
unfolding submit_to
submit_to_result env sub (err x) t s = inr (record {
  exception = x;
  returns = refl;
  own = inl refl;
  others = λ u ne. refl;
  futures = refl;
  queue = refl;
  callbacks = refl;
})
submit_to_result env sub (ok label) t s =
    enter_result env sub label t s s.next_future
      (add_input_deps ((create_record env sub label t s).dfk.record_of t).kwargs)

counted_from :
    (env : Environment) (t f : ℕ) (s : Frontend) (n : ℕ) (r : Result ℕ × Frontend)
    → IsAccepted env t f (record s { task_count = n }) r
      ⊎ IsRefused t (record s { task_count = n }) r
    → IsAccepted env t f s r ⊎ IsRefused t s r
counted_from env t f s n r (inl a) = inl (record {
  returns = a.returns;
  depends = a.depends;
  gathers = a.gathers;
  waiting = a.waiting;
  entered = a.entered;
  extended = record {
    others = a.extended.others;
    futures = a.extended.futures;
    queue = a.extended.queue;
    callbacks = a.extended.callbacks;
  };
})
counted_from env t f s n r (inr x) = inr (record {
  exception = x.exception;
  returns = x.returns;
  own = x.own;
  others = x.others;
  futures = x.futures;
  queue = x.queue;
  callbacks = x.callbacks;
})

submit_when :
    (env : Environment) (sub : Submission) (s : Frontend) (closed : Bool)
    → let r =
        if closed
        then (err no_data_flow_kernel, s)
        else submit_to env sub
            (choose_executor env sub.executors)
            s.task_count
            (record s { task_count = s.task_count + 1 }) in
      IsAccepted env s.task_count s.next_future s r ⊎ IsRefused s.task_count s r
submit_when env sub s true = inr (record {
  exception = no_data_flow_kernel;
  returns = refl;
  own = inl refl;
  others = λ u ne. refl;
  futures = refl;
  queue = refl;
  callbacks = refl;
})
submit_when env sub s false = counted_from env s.task_count s.next_future s (s.task_count + 1) _ (
    submit_to_result env sub (choose_executor env sub.executors) s.task_count
      (record s { task_count = s.task_count + 1 }))

-- For every submission: it is accepted, and the new task is then in the table, pending, with the
-- Futures that are gathered from its arguments as its dependencies; each of them is done or has a
-- callback for the task, and the task is in the queue of launches. Or it raises, and leaves no launch
-- and no callback behind. Either way the other tasks and the Futures are as before.
pub submit_result :
    (env : Environment) (sub : Submission) (s : Frontend)
    → IsAccepted env s.task_count s.next_future s (submit env sub s)
      ⊎ IsRefused s.task_count s (submit env sub s)
unfolding submit
submit_result env sub s = submit_when env sub s s.cleanup_called
