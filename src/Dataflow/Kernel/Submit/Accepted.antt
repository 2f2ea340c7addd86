-- ===== src/Dataflow/Kernel/Submit/Accepted.antt =====
-- Lemmas on what `submit` of solution/dflow.py leaves behind.
use talents_parsl_checkpoint.Prelude.{
  ℕ, ◌+◌, ◌≤◌, ◌<◌, ◌==◌, ◌≡◌, ◌≢◌, ◌⊎◌, inl, inr, refl, ap, ◌∙◌, true, ◌&&◌, some, List, [], ◌∷◌,
  ◌++◌, All, count, count-append, arith, Bool-cases, if◌then◌else◌,
}
use talents_parsl_checkpoint.Dataflow.States.{pending}
use talents_parsl_checkpoint.Dataflow.Kernel.{Dfk}
use talents_parsl_checkpoint.Dataflow.Kernel.Publish.{set_record, update_task_state}
use talents_parsl_checkpoint.Dataflow.Kernel.Join.{is_done}
use talents_parsl_checkpoint.Dataflow.Kernel.Update.{launch_if_ready}
use talents_parsl_checkpoint.Dataflow.Kernel.Local.{update_self, update_other}
use talents_parsl_checkpoint.Dataflow.Kernel.Submit.{
  Environment, Frontend, add_done_callback, add_callbacks, make_pending, dependencies,
}

-- How often the task t waits for the Future f.
unfoldable pub waits : (f t : ℕ) → List (ℕ × ℕ) → ℕ
waits f t [] = 0
waits f t ((g, u) ∷ cs) = (if f == g && t == u then 1 else 0) + waits f t cs

pub waits-append :
    (f t : ℕ) (cs ds : List (ℕ × ℕ)) → waits f t (cs ++ ds) ≡ waits f t cs + waits f t ds
unfolding waits
waits-append f t [] ds = omega arith
waits-append f t ((g, u) ∷ cs) ds = omega (arith, waits-append f t cs ds)

-- The kernel, but for the queue of launches.
pub record IsSameButQueue (c d : Dfk) : Type 0 where
  pub records : d.record_of ≡ c.record_of
  pub tasks : d.tasks ≡ c.tasks
  pub counts : d.task_state_counts ≡ c.task_state_counts
  pub futures : d.futures ≡ c.futures
  pub queue : (u : ℕ) → count u c.launch_queue ≤ count u d.launch_queue

-- The callbacks of the task t on the Futures fs have been added.
pub record Adds (fs : List ℕ) (t : ℕ) (s s' : Frontend) : Type 0 where
  pub kernel : IsSameButQueue s.dfk s'.dfk
  pub count_same : s'.task_count ≡ s.task_count
  pub next_same : s'.next_future ≡ s.next_future
  pub open_same : s'.cleanup_called ≡ s.cleanup_called
  pub more : (f u : ℕ) → waits f u s.dep_callbacks ≤ waits f u s'.dep_callbacks
  pub each : All (λ f. (is_done s.dfk f ≡ true) ⊎ (0 < waits f t s'.dep_callbacks)) fs

All-map {ℓ} :
    {A : Type ℓ} {P Q : A → Type ℓ} (xs : List A) → ((x : A) → P x → Q x) → All P xs → All Q xs
All-map [] f h = tt
All-map (x ∷ xs) f h = (f x h.0, All-map xs f h.1)

pub add_done_callback-Adds : (f t : ℕ) (s : Frontend) → Adds (f ∷ []) t s (add_done_callback f t s)
unfolding add_done_callback launch_if_ready waits
add_done_callback-Adds f t s = elim (Bool-cases (is_done s.dfk f)) [
  | inl done ↦ rw done (record {
    kernel = record {
      records = refl;
      tasks = refl;
      counts = refl;
      futures = refl;
      queue = λ u. omega (arith, count-append u s.dfk.launch_queue (t ∷ []));
    };
    count_same = refl;
    next_same = refl;
    open_same = refl;
    more = λ g u. omega arith;
    each = (inl done, tt);
  })
  | inr waits_for ↦ rw waits_for (record {
    kernel = record {
      records = refl;
      tasks = refl;
      counts = refl;
      futures = refl;
      queue = λ u. omega arith;
    };
    count_same = refl;
    next_same = refl;
    open_same = refl;
    more = λ g u. omega (arith, waits-append g u s.dep_callbacks ((f, t) ∷ []));
    each = (inr (ground (arith, waits-append f t s.dep_callbacks ((f, t) ∷ []))), tt);
  })
]

still_done :
    (c d : Dfk)
    → d.futures ≡ c.futures
    → {n : ℕ} (f : ℕ) → (is_done d f ≡ true) ⊎ (0 < n)
    → (is_done c f ≡ true) ⊎ (0 < n)
still_done c d same f (inl done) = inl (rw same at done)
still_done c d same f (inr waits_for) = inr waits_for

now_done :
    (c d : Dfk)
    → d.futures ≡ c.futures
    → {n : ℕ} (f : ℕ) → (is_done c f ≡ true) ⊎ (0 < n)
    → (is_done d f ≡ true) ⊎ (0 < n)
now_done c d same f (inl done) = inl (rw same done)
now_done c d same f (inr waits_for) = inr waits_for

pub add_callbacks-Adds : (fs : List ℕ) (t : ℕ) (s : Frontend) → Adds fs t s (add_callbacks fs t s)
unfolding add_callbacks
add_callbacks-Adds [] t s = record {
  kernel = record {
    records = refl;
    tasks = refl;
    counts = refl;
    futures = refl;
    queue = λ u. omega arith;
  };
  count_same = refl;
  next_same = refl;
  open_same = refl;
  more = λ g u. omega arith;
  each = tt;
}
add_callbacks-Adds (f ∷ fs) t s =
    let one = add_done_callback-Adds f t s in
    let rest = add_callbacks-Adds fs t (add_done_callback f t s) in
    record {
      kernel = record {
        records = rest.kernel.records ∙ one.kernel.records;
        tasks = rest.kernel.tasks ∙ one.kernel.tasks;
        counts = rest.kernel.counts ∙ one.kernel.counts;
        futures = rest.kernel.futures ∙ one.kernel.futures;
        queue = λ u. omega (arith, one.kernel.queue u, rest.kernel.queue u);
      };
      count_same = rest.count_same ∙ one.count_same;
      next_same = rest.next_same ∙ one.next_same;
      open_same = rest.open_same ∙ one.open_same;
      more = λ g u. omega (arith, one.more g u, rest.more g u);
      each = (
        elim one.each.0 [
          | inl done ↦ inl done
          | inr waits_for ↦ inr (omega (arith, rest.more f t))
        ],
        All-map fs (λ g. still_done s.dfk (add_done_callback f t s).dfk one.kernel.futures g)
            rest.each,
      );
    }

-- The task t is in the kernel, with what its launch waits for: it is pending and in the queue of
-- launches, and each dependency is done or has a callback for it.
pub record IsWaiting (t : ℕ) (depends : List ℕ) (s : Frontend) : Type 0 where
  pub state : (s.dfk.record_of t).status ≡ some pending
  pub depends_on : (s.dfk.record_of t).depends ≡ depends
  pub queued : 0 < count t s.dfk.launch_queue
  pub called : All (λ f. (is_done s.dfk f ≡ true) ⊎ (0 < waits f t s.dep_callbacks)) depends

-- Nothing that was there is lost: the other tasks, the Futures, and the queues.
pub record IsExtended (t : ℕ) (s s' : Frontend) : Type 0 where
  pub others : (u : ℕ) → t ≢ u → s'.dfk.record_of u ≡ s.dfk.record_of u
  pub futures : s'.dfk.futures ≡ s.dfk.futures
  pub queue : (u : ℕ) → count u s.dfk.launch_queue ≤ count u s'.dfk.launch_queue
  pub callbacks : (f u : ℕ) → waits f u s.dep_callbacks ≤ waits f u s'.dep_callbacks

-- The launch of a task whose callbacks have been added.
module _ (depends : List ℕ) (t : ℕ) (e w : Frontend) (a : Adds depends t e w) where
  abbrev looked_at : Frontend
  looked_at = record w { dfk = (launch_if_ready t w.dfk).1 }

  looked_at-IsWaiting :
      ((e.dfk.record_of t).status ≡ some pending)
      → ((e.dfk.record_of t).depends ≡ depends)
      → IsWaiting t depends looked_at
  unfolding launch_if_ready
  looked_at-IsWaiting state depends_on = record {
    state = ap (λ r. (r t).status) a.kernel.records ∙ state;
    depends_on = ap (λ r. (r t).depends) a.kernel.records ∙ depends_on;
    queued = ground (arith, count-append t w.dfk.launch_queue (t ∷ []));
    called = All-map depends (λ f. now_done e.dfk looked_at.dfk a.kernel.futures f) a.each;
  }

module _ (depends : List ℕ) (t : ℕ) (s : Frontend) where
  abbrev marked : Dfk
  marked = set_record t (λ task. record task { depends = depends }) s.dfk

  abbrev made_pending : Frontend
  made_pending = record s { dfk = (update_task_state t pending marked).1 }

  marked_status : (made_pending.dfk.record_of t).status ≡ some pending
  unfolding update_task_state
  marked_status = ap (λ r. r.status) (update_self marked.record_of t _)

  marked_depends : (made_pending.dfk.record_of t).depends ≡ depends
  unfolding update_task_state
  marked_depends =
      ap (λ r. r.depends) (update_self marked.record_of t _)
      ∙ ap (λ r. r.depends) (update_self s.dfk.record_of t _)

  pub marked_other : (u : ℕ) → t ≢ u → made_pending.dfk.record_of u ≡ s.dfk.record_of u
  unfolding update_task_state
  marked_other u ne = update_other marked.record_of t u _ ne ∙ update_other s.dfk.record_of t u _ ne

  pub make_pending-IsWaiting : IsWaiting t depends (make_pending depends t s)
  unfolding make_pending
  make_pending-IsWaiting =
      looked_at-IsWaiting depends t made_pending (add_callbacks depends t made_pending)
        (add_callbacks-Adds depends t made_pending) marked_status marked_depends

  pub make_pending-IsExtended : IsExtended t s (make_pending depends t s)
  unfolding make_pending launch_if_ready update_task_state
  make_pending-IsExtended =
      let w = add_callbacks depends t made_pending in
      let a = add_callbacks-Adds depends t made_pending in
      record {
        others = λ u ne. ap (λ r. r u) a.kernel.records ∙ marked_other u ne;
        futures = a.kernel.futures;
        queue = λ u. omega (arith, a.kernel.queue u, count-append u w.dfk.launch_queue (t ∷ []));
        callbacks = a.more;
      }

  -- The arguments of the call are left alone, and the table of tasks.
  pub make_pending-args :
      (env : Environment)
      → dependencies env ((make_pending depends t s).dfk.record_of t)
        ≡ dependencies env (s.dfk.record_of t)
  unfolding make_pending launch_if_ready update_task_state
  make_pending-args env =
      let a = add_callbacks-Adds depends t made_pending in
      ap (λ r. dependencies env (r t)) a.kernel.records
      ∙ ap (dependencies env) (update_self marked.record_of t _)
      ∙ ap (dependencies env) (update_self s.dfk.record_of t _)

  pub make_pending-tasks : (make_pending depends t s).dfk.tasks ≡ s.dfk.tasks
  unfolding make_pending launch_if_ready update_task_state
  make_pending-tasks = (add_callbacks-Adds depends t made_pending).kernel.tasks

  pub make_pending-count : (make_pending depends t s).task_count ≡ s.task_count
  unfolding make_pending
  make_pending-count = (add_callbacks-Adds depends t made_pending).count_same
