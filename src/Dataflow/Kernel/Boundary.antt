-- ===== src/Dataflow/Kernel/Boundary.antt =====
-- Lemmas on what the handlers of solution/dflow.py publish.
use talents_parsl_checkpoint.Prelude.{
  ℕ, ◌≡◌, refl, true, Option, none, some, List, Bool-cases, inl, inr, ==_refl, leb,
}
use talents_parsl_checkpoint.Dataflow.Errors.{Exn, Result, ok, err}
use talents_parsl_checkpoint.Dataflow.States.{is_iff, States, dep_fail, failed}
use talents_parsl_checkpoint.Dataflow.Tasks.{TaskRecord}
use talents_parsl_checkpoint.Dataflow.Memo.{raised}
use talents_parsl_checkpoint.Dataflow.Kernel.{Config, Dfk, modify, ◌>>◌}
use talents_parsl_checkpoint.Dataflow.Kernel.Keeps.{Keeps, Keeps-if, keeps_rules}
use talents_parsl_checkpoint.Dataflow.Kernel.Finalised.{
  Agrees, AllFinal, complete_task-AllFinal, fail_task-AllFinal,
}
use talents_parsl_checkpoint.Dataflow.Kernel.Handlers.{IsStable}
use talents_parsl_checkpoint.Dataflow.Kernel.Events.{Event, handle_all, handle_all-Keeps}
use talents_parsl_checkpoint.Dataflow.Kernel.Publish.{set_record, update_task_state, fail_task}
use talents_parsl_checkpoint.Dataflow.Kernel.Join.{status_is}
use talents_parsl_checkpoint.Dataflow.Kernel.Update.{
  note_failure, settle_charged, charge_answer, charge, retry_task, settle_failure, handle_failure,
}

dep_fail-Agrees : (s : Option States) (x : Exn) → status_is s dep_fail ≡ true → Agrees (raised x) s
dep_fail-Agrees none x e = cc
dep_fail-Agrees (some s) x e = rw ((is_iff s dep_fail).0 e) tt

module _ (cfg : Config) where
  -- An operation that writes no publication.
  quiet :
      (f : Dfk → Dfk)
      → ((d : Dfk) → (f d).published ≡ d.published)
      → Keeps (AllFinal cfg) (modify f)
  quiet f e = record { at = λ d h. record { each = rw (e d) h.each } }

  set-AllFinal :
      (t : ℕ) (f : TaskRecord → TaskRecord) → Keeps (AllFinal cfg) (modify (set_record t f))
  set-AllFinal t f = quiet (set_record t f) (λ d. refl)

  update-AllFinal : (t : ℕ) (s : States) → Keeps (AllFinal cfg) (update_task_state t s)
  unfolding update_task_state
  update-AllFinal t s = record { at = λ d h. record { each = h.each } }

  -- A task fails: its state is set, and then it is finalised.
  fail-AllFinal :
      (t : ℕ) (x : Exn) → Keeps (AllFinal cfg) (update_task_state t failed >> fail_task cfg t x)
  unfolding update_task_state fail_task
  fail-AllFinal t x = record {
    at = λ d h.
        fail_task-AllFinal cfg t x (update_task_state t failed d).1 (rw (==_refl t) tt)
          ((update-AllFinal t failed).at d h);
  }

  charge_answer-AllFinal :
      (t : ℕ) (x : Exn) (answer : Result ℕ) → Keeps (AllFinal cfg) (charge_answer cfg t x answer)
  unfolding charge_answer
  charge_answer-AllFinal t x (ok cost) = search (keeps_rules, set-AllFinal)
  charge_answer-AllFinal t x (err y) = search (keeps_rules, set-AllFinal)

  charge-AllFinal :
      (t : ℕ) (x : Exn) (handler : Option (Exn → TaskRecord → Result ℕ))
      → Keeps (AllFinal cfg) (charge cfg t x handler)
  unfolding charge
  charge-AllFinal t x none = search (keeps_rules, set-AllFinal)
  charge-AllFinal t x (some handler) = search (keeps_rules, charge_answer-AllFinal)

  retry_task-AllFinal : (t : ℕ) → Keeps (AllFinal cfg) (retry_task t)
  unfolding retry_task
  retry_task-AllFinal t = search (keeps_rules, set-AllFinal, update-AllFinal)

  -- The branch on `dep_fail` reads the state of the record, so the record is that of the kernel.
  settle_failure-AllFinal :
      (t : ℕ) (x : Exn) (d : Dfk)
      → AllFinal cfg d
      → AllFinal cfg (settle_failure cfg t x (d.record_of t) d).1
  unfolding settle_failure
  settle_failure-AllFinal t x d h = elim (Bool-cases (status_is (d.record_of t).status dep_fail)) [
    | inl dep ↦
        rw dep (fail_task-AllFinal cfg t x d (dep_fail-Agrees (d.record_of t).status x dep) h)
    | inr other ↦ rw other (
        (Keeps-if (leb (d.record_of t).fail_cost cfg.retries) _ _ (retry_task-AllFinal t)
            (fail-AllFinal t x)).at
          d h)
  ]

  note_failure-AllFinal : (t : ℕ) (x : Exn) → Keeps (AllFinal cfg) (note_failure t x)
  unfolding note_failure
  note_failure-AllFinal t x = record { at = λ d h. record { each = h.each } }

  settle_charged-AllFinal : (t : ℕ) (x : Exn) → Keeps (AllFinal cfg) (settle_charged cfg t x)
  unfolding settle_charged
  settle_charged-AllFinal t x = record { at = λ d h. settle_failure-AllFinal t x d h }

  handle_failure-AllFinal : (t : ℕ) (x : Exn) → Keeps (AllFinal cfg) (handle_failure cfg t x)
  unfolding handle_failure
  handle_failure-AllFinal t x =
      search (keeps_rules, note_failure-AllFinal, charge-AllFinal, settle_charged-AllFinal)

  AllFinal-IsStable : (t : ℕ) → IsStable cfg t (AllFinal cfg)
  AllFinal-IsStable t = record {
    ends = record {
      sets = λ task d tries cost state depends h. record { each = h.each };
      completes = complete_task-AllFinal cfg t;
      fails = fail-AllFinal t;
      allocates = λ d x h. record { each = h.each };
      registers = λ d x h. record { each = h.each };
    };
    updates = update-AllFinal t;
    handles_failure = handle_failure-AllFinal t;
    queues = λ d h. record { each = h.each };
    runs = λ d x h. record { each = h.each };
  }

  -- From a kernel whose publications so far were so: whatever happens to it, in any order, on success,
  -- failure, retry, join and exception paths alike: at the moment when an AppFuture became done, the
  -- state of its task was final and agreed with the outcome, and with garbage collection on the task
  -- was no longer in the task table.
  pub handle_all-AllFinal :
      (es : List Event) (d : Dfk) → AllFinal cfg d → AllFinal cfg (handle_all cfg es d)
  handle_all-AllFinal = handle_all-Keeps cfg (AllFinal cfg) AllFinal-IsStable
