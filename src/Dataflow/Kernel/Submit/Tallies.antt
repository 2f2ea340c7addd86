-- ===== src/Dataflow/Kernel/Submit/Tallies.antt =====
-- The counters of the task states over `submit`, and the number of the next task (solution/dflow.py).
use talents_parsl_checkpoint.Prelude.{
  ℕ, String, ◌+◌, ◌≡◌, refl, sym, ◌∙◌, Bool, true, false, none, List, has_id, Bool-cases, inl, inr,
  if◌then◌else◌,
}
use talents_parsl_checkpoint.Dataflow.Errors.{Result, ok, err, no_data_flow_kernel}
use talents_parsl_checkpoint.Dataflow.States.{unsched, pending}
use talents_parsl_checkpoint.Dataflow.Kernel.Counted.{
  IsCounted, sets-IsCounted, update-IsCounted, same-IsCounted,
}
use talents_parsl_checkpoint.Dataflow.Kernel.Publish.{set_record, update_task_state}
use talents_parsl_checkpoint.Dataflow.Kernel.Update.{launch_if_ready}
use talents_parsl_checkpoint.Dataflow.Kernel.Submit.{
  Submission, Environment, Frontend, choose_executor, new_task, name_streams, create_record,
  enter_task, make_pending, gathered, dependencies, add_input_deps, enter, submit_to, submit,
}
use talents_parsl_checkpoint.Dataflow.Kernel.Submit.Accepted.{add_callbacks-Adds}
use talents_parsl_checkpoint.Dataflow.Kernel.Submit.Answered.{name_streams-IsNamed}

-- The counters are right, and the next task has the number n.
record IsNumbered (n : ℕ) (s : Frontend) : Type 0 where
  counted : IsCounted s.dfk
  numbered : s.task_count ≡ n

module _ (env : Environment) (t n : ℕ) where
  make_pending-IsNumbered :
      (depends : List ℕ) (s : Frontend) → IsNumbered n s → IsNumbered n (make_pending depends t s)
  unfolding make_pending launch_if_ready update_task_state
  make_pending-IsNumbered depends s h =
      let marked = set_record t (λ task. record task { depends = depends }) s.dfk in
      let e = record s { dfk = (update_task_state t pending marked).1 } in
      let a = add_callbacks-Adds depends t e in
      record {
        counted = same-IsCounted env.cfg e.dfk _ a.kernel.records a.kernel.counts (
            (update-IsCounted env.cfg t pending).at marked
              (sets-IsCounted t _ s.dfk refl h.counted));
        numbered = a.count_same ∙ h.numbered;
      }

  gathered-IsNumbered :
      (depends : Result (List ℕ)) (f : ℕ) (s : Frontend)
      → IsNumbered n s
      → IsNumbered n (gathered depends t f s).1
  unfolding gathered
  gathered-IsNumbered (err x) f s h = h
  gathered-IsNumbered (ok depends) f s h = make_pending-IsNumbered depends s h

  enter-IsNumbered :
      (staged : Result (Unit {0})) (f : ℕ) (s : Frontend)
      → IsNumbered n s
      → IsNumbered n (enter env staged t f s).1
  unfolding enter
  enter-IsNumbered (err x) f s h = h
  enter-IsNumbered (ok _) f s h = elim (Bool-cases (has_id t s.dfk.tasks)) [
    | inl there ↦ rw there h
    | inr new ↦ rw new (
        gathered-IsNumbered (dependencies env (s.dfk.record_of t)) f (enter_task t s) (record {
          counted = same-IsCounted env.cfg s.dfk _ refl refl h.counted;
          numbered = h.numbered;
        }))
  ]

  create_record-IsNumbered :
      (sub : Submission) (label : String) (s : Frontend)
      → (s.dfk.record_of t).status ≡ none
      → IsNumbered n s
      → IsNumbered n (create_record env sub label t s)
  unfolding create_record new_task
  create_record-IsNumbered sub label s fresh h =
      let d = set_record t (λ _. new_task t s.next_future label sub) s.dfk in
      let e = (update_task_state t unsched d).1 in
      record {
        counted =
            sets-IsCounted t (name_streams env (e.record_of t)) e
              ((name_streams-IsNamed env (e.record_of t)).state)
              ((update-IsCounted env.cfg t unsched).at d
                (sets-IsCounted t _ s.dfk (sym fresh) h.counted));
        numbered = h.numbered;
      }

  submit_to-IsNumbered :
      (sub : Submission) (label : Result String) (s : Frontend)
      → (s.dfk.record_of t).status ≡ none
      → IsNumbered n s
      → IsNumbered n (submit_to env sub label t s).1
  unfolding submit_to
  submit_to-IsNumbered sub (err x) s fresh h = h
  submit_to-IsNumbered sub (ok label) s fresh h =
      let a = create_record env sub label t s in
      enter-IsNumbered (add_input_deps (a.dfk.record_of t).kwargs) s.next_future a
        (create_record-IsNumbered sub label s fresh h)

module _ (env : Environment) (sub : Submission) (s : Frontend) where
  -- After a cleanup, `submit` changes nothing.
  pub submit-closed : s.cleanup_called ≡ true → (submit env sub s).1 ≡ s
  unfolding submit
  submit-closed closed = rw closed refl

  opened-IsNumbered :
      (closed : Bool)
      → closed ≡ false
      → (s.dfk.record_of s.task_count).status ≡ none
      → IsCounted s.dfk
      → IsNumbered
          (s.task_count + 1)
          (if closed
            then (err no_data_flow_kernel, s)
            else submit_to env sub
                (choose_executor env sub.executors)
                s.task_count
                (record s { task_count = s.task_count + 1 })).1
  opened-IsNumbered true e fresh h = cc
  opened-IsNumbered false e fresh h =
      submit_to-IsNumbered env s.task_count (s.task_count + 1) sub
        (choose_executor env sub.executors) (record s { task_count = s.task_count + 1 }) fresh
        (record { counted = h; numbered = refl })

  pub submit-IsCounted :
      s.cleanup_called ≡ false
      → (s.dfk.record_of s.task_count).status ≡ none
      → IsCounted s.dfk
      → IsCounted (submit env sub s).1.dfk
  unfolding submit
  submit-IsCounted opened fresh h = (opened-IsNumbered s.cleanup_called opened fresh h).counted

  pub submit-task_count :
      s.cleanup_called ≡ false
      → (s.dfk.record_of s.task_count).status ≡ none
      → IsCounted s.dfk
      → (submit env sub s).1.task_count ≡ s.task_count + 1
  unfolding submit
  submit-task_count opened fresh h = (opened-IsNumbered s.cleanup_called opened fresh h).numbered
