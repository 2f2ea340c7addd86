-- ===== src/Dataflow/Kernel/Local.antt =====
-- What the handlers for one task leave of the others (solution/dflow.py).
use talents_parsl_checkpoint.Prelude.{
  ℕ, ◌≤◌, ◌==◌, ◌≡◌, ◌≢◌, refl, ap, ◌∙◌, true, false, Option, none, some, [], ◌∷◌, count,
  count-append, arith, Bool-cases, inl, inr, ==_refl,
}
use talents_parsl_checkpoint.Dataflow.States.{States}
use talents_parsl_checkpoint.Dataflow.Tasks.{TaskRecord}
use talents_parsl_checkpoint.Dataflow.Memo.{Outcome}
use talents_parsl_checkpoint.Dataflow.Kernel.{Config, Dfk, update}
use talents_parsl_checkpoint.Dataflow.Kernel.Keeps.{Keeps}
use talents_parsl_checkpoint.Dataflow.Kernel.Frame.{record_task_outcome-IsSameTasks}
use talents_parsl_checkpoint.Dataflow.Kernel.Handlers.{IsStable}
use talents_parsl_checkpoint.Dataflow.Kernel.Parts.{IsKept-IsStable}
use talents_parsl_checkpoint.Dataflow.Kernel.Publish.{
  update_task_state, wipe_task, finish, set_app_future, record_task_outcome,
}
use talents_parsl_checkpoint.Dataflow.Kernel.Join.{is_done}

pub update_self {ℓ} : {A : Type ℓ} (f : ℕ → A) (t : ℕ) (a : A) → update f t a t ≡ a
update_self f t a = rw (==_refl t) refl

pub update_other {ℓ} : {A : Type ℓ} (f : ℕ → A) (t u : ℕ) (a : A) → t ≢ u → update f t a u ≡ f u
update_other f t u a ne = let other : (u == t) ≡ false = ground arith in rw other refl

-- From the kernel c to the kernel d only the task t has changed, and not its dependencies. No Future
-- is undone, and no launch is taken from the queue.
pub record IsLocal (t : ℕ) (c d : Dfk) : Type 0 where
  pub others : (u : ℕ) → t ≢ u → d.record_of u ≡ c.record_of u
  pub depends : (d.record_of t).depends ≡ (c.record_of t).depends
  pub queue : (u : ℕ) → count u c.launch_queue ≤ count u d.launch_queue
  pub done : (f : ℕ) → is_done c f ≡ true → is_done d f ≡ true

pub IsLocal-refl : (t : ℕ) (d : Dfk) → IsLocal t d d
IsLocal-refl t d = record {
  others = λ u ne. refl;
  depends = refl;
  queue = λ u. omega arith;
  done = λ f e. e;
}

module _ (cfg : Config) (t : ℕ) (c : Dfk) where
  change-IsLocal :
      (task : TaskRecord) (d : Dfk)
      → task.depends ≡ (d.record_of t).depends
      → IsLocal t c d
      → (u : ℕ) → t ≢ u
      → update d.record_of t task u ≡ c.record_of u
  change-IsLocal task d depends h u ne = update_other d.record_of t u task ne ∙ h.others u ne

  changed-depends :
      (task : TaskRecord) (d : Dfk)
      → task.depends ≡ (d.record_of t).depends
      → IsLocal t c d
      → (update d.record_of t task t).depends ≡ (c.record_of t).depends
  changed-depends task d depends h =
      ap (λ r. r.depends) (update_self d.record_of t task) ∙ depends ∙ h.depends

  update-IsLocal : (s : States) → Keeps (IsLocal t c) (update_task_state t s)
  unfolding update_task_state
  update-IsLocal s = record {
    at = λ d h. record {
      others = change-IsLocal _ d refl h;
      depends = changed-depends _ d refl h;
      queue = h.queue;
      done = h.done;
    };
  }

  record-IsLocal : (o : Outcome) → Keeps (IsLocal t c) (record_task_outcome cfg t o)
  record-IsLocal o = record {
    at = λ d h.
        let same = record_task_outcome-IsSameTasks cfg t o d in
        record {
          others = λ u ne. ap (λ r. r u) same.records ∙ h.others u ne;
          depends = ap (λ r. (r t).depends) same.records ∙ h.depends;
          queue = λ u. omega (arith, h.queue u, ap (count u) same.launches);
          done = λ f e. rw (same.futures, is_done) (h.done f e);
        };
  }

  wipe-IsLocal : Keeps (IsLocal t c) (wipe_task cfg t)
  unfolding wipe_task
  wipe-IsLocal = record { at = λ d h. ground arith }

  finish-IsLocal : (was : Option Outcome) (o : Outcome) → Keeps (IsLocal t c) (finish was t o)
  unfolding finish
  finish-IsLocal (some _) o = record { at = λ d h. h }
  finish-IsLocal none o = record {
    at = λ d h. record {
      others = h.others;
      depends = h.depends;
      queue = h.queue;
      done = λ f e. elim (Bool-cases (f == (d.record_of t).app_fu)) [
        | inl this ↦ rw (this, is_done) refl
        | inr other ↦ rw (other, is_done) (h.done f e)
      ];
    };
  }

  publish-IsLocal : (o : Outcome) → Keeps (IsLocal t c) (set_app_future t o)
  unfolding set_app_future
  publish-IsLocal o = record {
    at = λ d h. (finish-IsLocal (d.futures (d.record_of t).app_fu) o).at d h;
  }

  same-IsLocal :
      (d e : Dfk)
      → e.record_of ≡ d.record_of
      → e.launch_queue ≡ d.launch_queue
      → e.futures ≡ d.futures
      → IsLocal t c d
      → IsLocal t c e
  same-IsLocal d e records queue futures h = record {
    others = λ u ne. ap (λ r. r u) records ∙ h.others u ne;
    depends = ap (λ r. (r t).depends) records ∙ h.depends;
    queue = λ u. omega (arith, h.queue u, ap (count u) queue);
    done = λ f e. rw futures (h.done f e);
  }

  pub IsLocal-IsStable : IsStable cfg t (IsLocal t c)
  IsLocal-IsStable = IsKept-IsStable cfg t (IsLocal t c) (record {
    updates = update-IsLocal;
    changes = λ task d state depends h. record {
      others = change-IsLocal task d depends h;
      depends = changed-depends task d depends h;
      queue = h.queue;
      done = h.done;
    };
    outcomes = record-IsLocal;
    wipes = wipe-IsLocal;
    publishes = publish-IsLocal;
    allocates = λ d x h. same-IsLocal d _ refl refl refl h;
    registers = λ d x h. same-IsLocal d _ refl refl refl h;
    queues = λ d h. record {
      others = h.others;
      depends = h.depends;
      queue = λ u. omega (arith, h.queue u, count-append u d.launch_queue (t ∷ []));
      done = h.done;
    };
    runs = λ d x h. same-IsLocal d _ refl refl refl h;
  })
