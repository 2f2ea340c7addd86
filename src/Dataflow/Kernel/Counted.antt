-- ===== src/Dataflow/Kernel/Counted.antt =====
-- The counters of the task states over histories of the kernel of solution/dflow.py.
use mathlib.Core.Path.{fun_ext}
use talents_parsl_checkpoint.Prelude.{
  ℕ, ◌==◌, ◌≡◌, refl, ap, ◌∙◌, sym, List, arith, Bool-cases, inl, inr, ==_iff,
}
use talents_parsl_checkpoint.Prelude.Int.{pos}
use talents_parsl_checkpoint.Dataflow.States.{States}
use talents_parsl_checkpoint.Dataflow.Tasks.{TaskRecord}
use talents_parsl_checkpoint.Dataflow.Memo.{Outcome}
use talents_parsl_checkpoint.Dataflow.Kernel.{Config, Dfk, update}
use talents_parsl_checkpoint.Dataflow.Kernel.Keeps.{Keeps}
use talents_parsl_checkpoint.Dataflow.Kernel.Frame.{record_task_outcome-IsSameTasks}
use talents_parsl_checkpoint.Dataflow.Kernel.Counts.{
  IsTallied, sum_of, is_at, update_task_state-IsTallied,
}
use talents_parsl_checkpoint.Dataflow.Kernel.Handlers.{IsStable}
use talents_parsl_checkpoint.Dataflow.Kernel.Parts.{IsKept-IsStable}
use talents_parsl_checkpoint.Dataflow.Kernel.Events.{Event, handle_all, handle_all-Keeps}
use talents_parsl_checkpoint.Dataflow.Kernel.Publish.{
  update_task_state, wipe_task, set_app_future, record_task_outcome,
}

-- Each counter is the number of tasks in its state, over the tasks that have one.
pub record IsCounted (d : Dfk) : Type 0 where
  pub ids : List ℕ
  pub tallied : IsTallied ids d

sum_of-same : {f g : ℕ → ℕ} → ((u : ℕ) → f u ≡ g u) → (ids : List ℕ) → sum_of f ids ≡ sum_of g ids
sum_of-same same ids = ap (λ f. sum_of f ids) (fun_ext same)

-- The records, as far as the counters go, are those of the function r.
same_states :
    (ids : List ℕ) (d : Dfk) (r : ℕ → TaskRecord)
    → ((u : ℕ) → (r u).status ≡ (d.record_of u).status)
    → IsTallied ids d
    → IsTallied ids (record d { record_of = r })
same_states ids d r same h = record {
  once = h.once;
  others = λ u out. same u ∙ h.others u out;
  counts = λ s. h.counts s ∙ ap pos (sum_of-same (λ u. sym (ap (is_at s) (same u))) ids);
}

status-update :
    (t : ℕ) (task : TaskRecord) (d : Dfk)
    → task.status ≡ (d.record_of t).status
    → (u : ℕ) → (update d.record_of t task u).status ≡ (d.record_of u).status
status-update t task d state u = elim (Bool-cases (u == t)) [
  | inl this ↦ rw (this, (==_iff u t).0 this) state
  | inr other ↦ rw other refl
]

pub sets-IsCounted :
    (t : ℕ) (task : TaskRecord) (d : Dfk)
    → task.status ≡ (d.record_of t).status
    → IsCounted d
    → IsCounted (record d { record_of = update d.record_of t task })
sets-IsCounted t task d state h = record {
  ids = h.ids;
  tallied =
      same_states h.ids d (update d.record_of t task) (status-update t task d state) h.tallied;
}

module _ (cfg : Config) where
  pub update-IsCounted : (t : ℕ) (s : States) → Keeps IsCounted (update_task_state t s)
  update-IsCounted t s = record {
    at = λ d h.
        let (ids, tallied) = update_task_state-IsTallied t s h.ids d h.tallied in
        record { ids = ids; tallied = tallied };
  }

  wipe-IsCounted : (t : ℕ) → Keeps IsCounted (wipe_task cfg t)
  unfolding wipe_task
  wipe-IsCounted t = record { at = λ d h. ground arith }

  set_app_future-IsCounted : (t : ℕ) (o : Outcome) → Keeps IsCounted (set_app_future t o)
  unfolding set_app_future
  set_app_future-IsCounted t o = record { at = λ d h. ground arith }

  record-IsCounted : (t : ℕ) (o : Outcome) → Keeps IsCounted (record_task_outcome cfg t o)
  record-IsCounted t o = record {
    at = λ d h.
        let same = record_task_outcome-IsSameTasks cfg t o d in
        record {
          ids = h.ids;
          tallied = record {
            once = h.tallied.once;
            others = rw same.records h.tallied.others;
            counts = rw (same.records, same.counts) h.tallied.counts;
          };
        };
  }

  -- What no counter and no task state shows.
  pub same-IsCounted :
      (d e : Dfk)
      → e.record_of ≡ d.record_of
      → e.task_state_counts ≡ d.task_state_counts
      → IsCounted d
      → IsCounted e
  same-IsCounted d e records counts h = record {
    ids = h.ids;
    tallied = record {
      once = h.tallied.once;
      others = rw records h.tallied.others;
      counts = rw (records, counts) h.tallied.counts;
    };
  }

  pub IsCounted-IsStable : (t : ℕ) → IsStable cfg t IsCounted
  IsCounted-IsStable t = IsKept-IsStable cfg t IsCounted (record {
    updates = update-IsCounted t;
    changes = λ task d state depends h. sets-IsCounted t task d state h;
    outcomes = record-IsCounted t;
    wipes = wipe-IsCounted t;
    publishes = set_app_future-IsCounted t;
    allocates = λ d x h. same-IsCounted d _ refl refl h;
    registers = λ d x h. same-IsCounted d _ refl refl h;
    queues = λ d h. same-IsCounted d _ refl refl h;
    runs = λ d x h. same-IsCounted d _ refl refl h;
  })

  -- From a kernel whose counters are right: whatever happens to it, in any order, each counter is the
  -- number of tasks that are in its state, over the tasks that have a state.
  pub handle_all-IsCounted :
      (es : List Event) (d : Dfk) → IsCounted d → IsCounted (handle_all cfg es d)
  handle_all-IsCounted = handle_all-Keeps cfg IsCounted IsCounted-IsStable
