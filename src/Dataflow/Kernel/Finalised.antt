-- ===== src/Dataflow/Kernel/Finalised.antt =====
-- The predicates on a task whose Future becomes done, and the parts of the handlers of
-- solution/dflow.py that make it so.
use talents_parsl_checkpoint.Prelude.{
  ℕ, ◌≡◌, refl, false, ◌&&◌, Option, some, List, [], ◌∷◌, All, has_id, arith, ==_refl,
}
use talents_parsl_checkpoint.Dataflow.Errors.{Exn, Result, ok, err}
use talents_parsl_checkpoint.Dataflow.States.{States, dep_fail, failed, memo_done, exec_done}
use talents_parsl_checkpoint.Dataflow.Memo.{Outcome, result, raised}
use talents_parsl_checkpoint.Dataflow.Kernel.{Config, Publication, Dfk, and_then, ◌>>◌}
use talents_parsl_checkpoint.Dataflow.Kernel.Keeps.{Keeps-try, Keeps, keeps_rules}
use talents_parsl_checkpoint.Dataflow.Kernel.Frame.{record_task_outcome-IsSameTasks}
use talents_parsl_checkpoint.Dataflow.Kernel.Publish.{
  fail_task, update_task_state, without, wipe_task, set_app_future, record_task_outcome, end_task,
  complete_task,
}

-- The state that a task ends in agrees with what its Future shows.
abbrev pub Agrees : Outcome → Option States → Type 0
Agrees (result r) (some exec_done) = Unit
Agrees (result r) (some memo_done) = Unit
Agrees (raised x) (some failed) = Unit
Agrees (raised x) (some dep_fail) = Unit
Agrees _ _ = ⊥

-- The state is final, and the task is in the table only if the kernel collects no garbage.
pub record IsFinal (cfg : Config) (p : Publication) : Type 0 where
  pub agrees : Agrees p.outcome p.task.status
  pub gone : (has_id p.task_id p.tasks && cfg.garbage_collect) ≡ false

-- Every publication so far was of a finalised task.
pub record AllFinal (cfg : Config) (d : Dfk) : Type 0 where
  pub each : All (IsFinal cfg) d.published

has_id-without : (t : ℕ) (ts : List ℕ) → has_id t (without t ts) ≡ false
unfolding has_id
has_id-without t [] = refl
has_id-without t (x ∷ ts) = ground (arith, has_id-without t ts)

-- The end of a task, once its state is set: the table is cleaned before the Future is set.
wipe_and_set :
    (cfg : Config) (t : ℕ) (o : Outcome) (d : Dfk)
    → Agrees o (d.record_of t).status
    → AllFinal cfg d
    → AllFinal cfg ((wipe_task cfg t >> set_app_future t o) d).1
unfolding wipe_task set_app_future
wipe_and_set cfg t o d a h = ground (arith, has_id-without t d.tasks)

module _ (cfg : Config) where
  end_task-AllFinal :
      (t : ℕ) (s : States) (o : Outcome)
      → Agrees o (some s)
      → Keeps (AllFinal cfg) (end_task cfg t s o)
  unfolding end_task update_task_state
  end_task-AllFinal t s o a = record {
    at = λ d h.
        wipe_and_set cfg t o (update_task_state t s d).1 (rw (==_refl t) a)
          (record { each = h.each });
  }

  pub record-AllFinal : (t : ℕ) (o : Outcome) → Keeps (AllFinal cfg) (record_task_outcome cfg t o)
  record-AllFinal t o = record {
    at = λ d h. record { each = rw ((record_task_outcome-IsSameTasks cfg t o d).history) h.each };
  }

  pub complete_task-AllFinal :
      (t : ℕ) (s : States) (r : ℕ) → Keeps (AllFinal cfg) (complete_task cfg t s r)
  unfolding complete_task
  complete_task-AllFinal t exec_done r =
      Keeps-try _ _ _ (record-AllFinal t (result r))
        (λ _. end_task-AllFinal t exec_done (result r) tt)
        (λ x. end_task-AllFinal t failed (raised x) tt)
  complete_task-AllFinal t memo_done r =
      Keeps-try _ _ _ (record-AllFinal t (result r))
        (λ _. end_task-AllFinal t memo_done (result r) tt)
        (λ x. end_task-AllFinal t failed (raised x) tt)
  complete_task-AllFinal t _ r = search keeps_rules

  -- A task that is in a final failure state fails.
  pub fail_task-AllFinal :
      (t : ℕ) (x : Exn) (d : Dfk)
      → Agrees (raised x) (d.record_of t).status
      → AllFinal cfg d
      → AllFinal cfg (fail_task cfg t x d).1
  unfolding fail_task
  fail_task-AllFinal t x d a h = by_record (record_task_outcome cfg t (raised x) d).0
    where
      after : Dfk
      after = (record_task_outcome cfg t (raised x) d).1

      by_record :
          (r : Result (Unit {0}))
          → AllFinal cfg (and_then r (λ _. wipe_task cfg t >> set_app_future t (raised x)) after).1
      by_record (err y) = (record-AllFinal t (raised x)).at d h
      by_record (ok u) =
          wipe_and_set cfg t (raised x) after
            (rw ((record_task_outcome-IsSameTasks cfg t (raised x) d).records) a)
            ((record-AllFinal t (raised x)).at d h)
